-- ===== src/Paxos/Record.antt =====
-- The lines of the Paxos log (log.cc): what `loginstance`, `loghigh` and `logprop` append.
use frangipani_yfs.Prelude.{ℕ, ◌++◌, ◌∷◌, [], List, Bytes, codes, ◌&&◌, Bool, leb}
use frangipani_yfs.Text.{decimal, newline, space, max_u32}
use frangipani_yfs.Text.Words.{is_word, is_line}
use frangipani_yfs.Paxos.Order.{PropT}

pub data LogRec : Type 0 where
  done : ℕ → Bytes → LogRec
  high : PropT → LogRec
  prop : PropT → Bytes → LogRec

-- One line, grouped to the right so that a reader takes the fields off one by one.
unfoldable pub line_of : LogRec → Bytes → Bytes
line_of (done i v) rest = codes "done" ++ space ∷ (decimal i ++ space ∷ (v ++ newline ∷ rest))
line_of (high p) rest = codes "high" ++ space ∷ (decimal p.n ++ space ∷ (p.m ++ newline ∷ rest))
line_of (prop p v) rest =
    codes "prop" ++ space ∷ (decimal p.n ++ space ∷ (p.m ++ space ∷ (v ++ newline ∷ rest)))

-- The text of a list of records.
unfoldable pub text_of : List LogRec → Bytes
unfolding line_of
text_of [] = []
text_of (r ∷ rs) = line_of r (text_of rs)

-- What comes back from the text: numbers fit `unsigned`, a proposer's name is one word, a value is
-- one line.
unfoldable pub is_clean : LogRec → Bool
is_clean (done i v) = leb i max_u32 && is_line v
is_clean (high p) = leb p.n max_u32 && is_word p.m
is_clean (prop p v) = leb p.n max_u32 && (is_word p.m && is_line v)
