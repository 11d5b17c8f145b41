-- ===== src/Extent/Server.antt =====
-- extent_server.cc. The two maps are functions into Option; `now` is the result of `time(0)`.
use frangipani_yfs.Prelude.{
  [], ℕ, ◌≡◌, refl, if◌then◌else◌, Option, none, some, update, is_some, Bytes, arith,
}
use frangipani_yfs.Extent.Protocol.{Status, ok, noent, Attr}

pub record ExtentServer : Type 0 where
  pub extents : ℕ → Option Bytes
  pub extent_attrs : ℕ → Option Attr

abbrev pub empty_server : ExtentServer
empty_server = record { extents = λ i. none; extent_attrs = λ i. none }

-- What a handler returns, with the result parameter of the call and the server it leaves.
pub record Answer {ℓ} (A : Type ℓ) : Type ℓ where
  pub status : Status
  pub value : A
  pub server : ExtentServer

unfoldable pub put : ℕ → Bytes → Attr → ExtentServer → Answer Status
put id buf attr s = record {
  status = ok;
  value = ok;
  server = record {
    extents = update s.extents id (some buf);
    extent_attrs = update s.extent_attrs id (some attr);
  };
}

abbrev touched : ℕ → Attr → Attr
touched now a = record { atime = now; mtime = a.mtime; ctime = a.ctime; size = a.size }

-- Both maps are searched; the result is written only when both have the extent.
unfoldable pub get_found : ℕ → ℕ → Bytes → ExtentServer → Option Bytes → Option Attr → Answer Bytes
get_found now id buf s (some b) (some a) = record {
  status = ok;
  value = b;
  server = record {
    extents = s.extents;
    extent_attrs = update s.extent_attrs id (some (touched now a));
  };
}
get_found now id buf s (some b) none = record { status = noent; value = buf; server = s }
get_found now id buf s none a = record { status = noent; value = buf; server = s }

unfoldable pub get : ℕ → ℕ → Bytes → ExtentServer → Answer Bytes
unfolding get_found
get now id buf s = get_found now id buf s (s.extents id) (s.extent_attrs id)

unfoldable pub getattr_found : Attr → ExtentServer → Option Attr → Answer Attr
getattr_found a s none = record { status = noent; value = a; server = s }
getattr_found a s (some b) = record { status = ok; value = b; server = s }

unfoldable pub getattr : ℕ → Attr → ExtentServer → Answer Attr
unfolding getattr_found
getattr id a s = getattr_found a s (s.extent_attrs id)

unfoldable pub remove : ℕ → ExtentServer → Answer Status
remove id s =
    if is_some (s.extents id)
    then record {
      status = ok;
      value = ok;
      server = record {
        extents = update s.extents id none;
        extent_attrs = update s.extent_attrs id none;
      };
    }
    else record { status = noent; value = noent; server = s }

-- `r` keeps the caller's value when the extent is missing.
unfoldable pub setattr : ℕ → Attr → Status → ExtentServer → Answer Status
setattr id a r s =
    if is_some (s.extent_attrs id)
    then record {
      status = ok;
      value = ok;
      server = record { extents = s.extents; extent_attrs = update s.extent_attrs id (some a) };
    }
    else record { status = noent; value = r; server = s }

-- The requests, and a run of them.
pub data Request : Type 0 where
  puts : ℕ → Bytes → Attr → Request
  gets : ℕ → ℕ → Request
  getattrs removes : ℕ → Request
  setattrs : ℕ → Attr → Request

abbrev no_attr : Attr
no_attr = record { atime = 0; mtime = 0; ctime = 0; size = 0 }

unfoldable pub serve : Request → ExtentServer → ExtentServer
unfolding put get getattr remove setattr
serve (puts id b a) s = (put id b a s).server
serve (gets now id) s = (get now id [] s).server
serve (getattrs id) s = (getattr id no_attr s).server
serve (removes id) s = (remove id s).server
serve (setattrs id a) s = (setattr id a ok s).server

-- The two maps have the same keys.
abbrev pub SameKeys : ExtentServer → Type 0
SameKeys s = (i : ℕ) → is_some (s.extents i) ≡ is_some (s.extent_attrs i)

pub got-SameKeys :
    (now id : ℕ) (buf : Bytes) (s : ExtentServer) (o : Option Bytes) (p : Option Attr)
    → s.extent_attrs id ≡ p
    → SameKeys s
    → SameKeys ((get_found now id buf s o p).server)
unfolding get_found
got-SameKeys now id buf s none p e h = h
got-SameKeys now id buf s (some b) none e h = h
got-SameKeys now id buf s (some b) (some a) e h = λ i. ground (arith, h i)

pub getattr-server :
    (a : Attr) (s : ExtentServer) (o : Option Attr) → (getattr_found a s o).server ≡ s
unfolding getattr_found
getattr-server a s none = refl
getattr-server a s (some b) = refl

-- Every request keeps the keys of the two maps of the server the same.
pub serve-SameKeys : (q : Request) (s : ExtentServer) → SameKeys s → SameKeys (serve q s)
unfolding serve put get getattr remove setattr
serve-SameKeys (puts id b a) s h = λ i. ground (arith, h i)
serve-SameKeys (gets now id) s h =
    got-SameKeys now id [] s (s.extents id) (s.extent_attrs id) refl h
serve-SameKeys (getattrs id) s h = rw (getattr-server no_attr s (s.extent_attrs id)) h
serve-SameKeys (removes id) s h = λ i. ground (arith, h i)
serve-SameKeys (setattrs id a) s h = λ i. ground (arith, h i)
