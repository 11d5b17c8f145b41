-- ===== src/Extent/Client.antt =====
-- extent_client.cc: the cache of a client, which holds the lock on an extent while it works on it. An
-- operation runs under the client's mutex from the turn of its thread to its return, so it is one step;
-- the queue of waiting threads is not modelled.
use frangipani_yfs.Prelude.{
  ℕ, Bool, true, false, [], ◌∷◌, ◌++◌, List, if◌then◌else◌, none, some, update, is_some, get_or,
  Bytes, elem, remove_all, erase_first, length,
}
use frangipani_yfs.Extent.Protocol.{Status, ok, rpc_failed, Attr}
use frangipani_yfs.Extent.Server.{ExtentServer, Answer}
use frangipani_yfs.Extent.Server

-- The class extends extent_server: `cache` is the inherited pair of maps.
pub record ExtentClient : Type 0 where
  pub cache : ExtentServer
  pub modified_extents : List ℕ
  pub modified_extent_attributes : List ℕ
  pub removed_extents : List ℕ

-- What becomes of a remote call: it is answered, it is lost before the server, or its answer is lost.
pub data Fate : Type 0 where
  answered lost unanswered : Fate

-- A call with the given fate of the handler `f`: its status, its result (the caller's value when no
-- answer comes) and the server.
unfoldable pub call {ℓ} :
    {A : Type ℓ} → Fate → (ExtentServer → Answer A) → A → ExtentServer → Answer A
call answered f a s = f s
call lost f a s = record { status = rpc_failed; value = a; server = s }
call unanswered f a s = record { status = rpc_failed; value = a; server = (f s).server }

-- The result of an operation: the client after it, and the server at the other end.
pub record Done (A : Type 0) : Type 0 where
  pub status : Status
  pub value : A
  pub client : ExtentClient
  pub remote : ExtentServer

abbrev pub is_ok : Status → Bool
is_ok ok = true
is_ok _ = false

abbrev push_new : ℕ → List ℕ → List ℕ
push_new eid l = if elem eid l then l else l ++ eid ∷ []

unfoldable pub add_extent_to_modified_queues : ℕ → ExtentClient → ExtentClient
add_extent_to_modified_queues eid c = record {
  cache = c.cache;
  modified_extents = push_new eid c.modified_extents;
  modified_extent_attributes = push_new eid c.modified_extent_attributes;
  removed_extents =
      if elem eid c.removed_extents then erase_first eid c.removed_extents else c.removed_extents;
}

abbrev pub with_cache : ExtentServer → ExtentClient → ExtentClient
with_cache s c = record {
  cache = s;
  modified_extents = c.modified_extents;
  modified_extent_attributes = c.modified_extent_attributes;
  removed_extents = c.removed_extents;
}

-- get_and_cache_extent_from_server, after its second call and after its first one. The result is the
-- two out parameters.
unfoldable pub cached : ℕ → Bytes → ExtentClient → Answer Attr → Done (Bytes × Attr)
unfolding add_extent_to_modified_queues
cached eid buf c r = record {
  status = r.status;
  value = (buf, r.value);
  client =
      if is_ok r.status
      then add_extent_to_modified_queues eid (
          with_cache
            (record {
              extents = update c.cache.extents eid (some buf);
              extent_attrs = update c.cache.extent_attrs eid (some r.value);
            })
            c)
      else c;
  remote = r.server;
}

unfoldable pub fetched : Fate → ℕ → Attr → ExtentClient → Answer Bytes → Done (Bytes × Attr)
unfolding cached call
fetched f eid attr c r =
    if is_ok r.status
    then cached eid r.value c (call f (Server.getattr eid attr) attr r.server)
    else record { status = r.status; value = (r.value, attr); client = c; remote = r.server }

unfoldable pub get_and_cache_extent_from_server :
    Fate → Fate → ℕ → ℕ → Bytes → Attr → ExtentClient → ExtentServer → Done (Bytes × Attr)
unfolding fetched call
get_and_cache_extent_from_server f g now eid buf attr c s =
    fetched g eid attr c (call f (Server.get now eid buf) buf s)

-- A branch that is served by the inherited maps.
unfoldable pub locally : {A : Type 0} → ExtentClient → ExtentServer → Answer A → Done A
locally c s r = record {
  status = r.status;
  value = r.value;
  client = with_cache r.server c;
  remote = s;
}

abbrev pub only_buf : Done (Bytes × Attr) → Done Bytes
only_buf d = record { status = d.status; value = d.value.0; client = d.client; remote = d.remote }

abbrev pub only_attr : Done (Bytes × Attr) → Done Attr
only_attr d = record { status = d.status; value = d.value.1; client = d.client; remote = d.remote }

-- `get` passes an attr it has just declared, and `getattr` a buffer.
abbrev pub no_attr : Attr
no_attr = record { atime = 0; mtime = 0; ctime = 0; size = 0 }

unfoldable pub get : Fate → Fate → ℕ → ℕ → Bytes → ExtentClient → ExtentServer → Done Bytes
unfolding locally get_and_cache_extent_from_server
get f g now eid buf c s =
    if is_some (c.cache.extents eid)
    then locally c s (Server.get now eid buf c.cache)
    else only_buf (get_and_cache_extent_from_server f g now eid buf no_attr c s)

unfoldable pub getattr : Fate → Fate → ℕ → ℕ → Attr → ExtentClient → ExtentServer → Done Attr
unfolding locally get_and_cache_extent_from_server
getattr f g now eid a c s =
    if is_some (c.cache.extent_attrs eid)
    then locally c s (Server.getattr eid a c.cache)
    else only_attr (get_and_cache_extent_from_server f g now eid [] a c s)

abbrev pub stamped : ℕ → Bytes → Attr
stamped now buf = record { atime = now; mtime = now; ctime = now; size = length buf }

unfoldable pub put : ℕ → ℕ → Bytes → ExtentClient → ExtentServer → Done Status
unfolding add_extent_to_modified_queues Server.put
put now eid buf c s =
    let r = Server.put eid buf (stamped now buf) c.cache in
    let d = with_cache r.server c in
    record {
      status = r.status;
      value = r.value;
      client = if is_ok r.status then add_extent_to_modified_queues eid d else d;
      remote = s;
    }

abbrev drop_found : ℕ → List ℕ → List ℕ
drop_found eid l = if elem eid l then erase_first eid l else l

unfoldable pub remove : ℕ → ExtentClient → ExtentServer → Done Status
unfolding Server.remove
remove eid c s =
    let r = Server.remove eid c.cache in
    record {
      status = r.status;
      value = r.value;
      client =
          if is_ok r.status
          then record {
            cache = r.server;
            modified_extents = drop_found eid c.modified_extents;
            modified_extent_attributes = drop_found eid c.modified_extent_attributes;
            removed_extents = c.removed_extents ++ eid ∷ [];
          }
          else with_cache r.server c;
      remote = s;
    }

-- The two parts of flush, each after its remote call.
unfoldable pub put_back : ℕ → ExtentClient → Answer Status → ExtentClient
put_back eid c r =
    if is_ok r.status
    then record {
      cache = record {
        extents = update c.cache.extents eid none;
        extent_attrs = update c.cache.extent_attrs eid none;
      };
      modified_extents = remove_all eid c.modified_extents;
      modified_extent_attributes = remove_all eid c.modified_extent_attributes;
      removed_extents = c.removed_extents;
    }
    else c

unfoldable pub took_out : ℕ → ExtentClient → Answer Status → ExtentClient
took_out eid c r =
    if is_ok r.status
    then record {
      cache = c.cache;
      modified_extents = c.modified_extents;
      modified_extent_attributes = c.modified_extent_attributes;
      removed_extents = remove_all eid c.removed_extents;
    }
    else c

-- The maps are read by `operator[]`, which gives the default for a missing key; the entry it would
-- insert is left out, and a well-formed client never lacks it.
unfoldable pub flush_modified : Fate → ℕ → ExtentClient → ExtentServer → ExtentClient × ExtentServer
unfolding put_back call
flush_modified f eid c s =
    let buf = get_or (c.cache.extents eid) [] in
    let attr = get_or (c.cache.extent_attrs eid) no_attr in
    let r = call f (Server.put eid buf attr) ok s in
    if elem eid c.modified_extents then (put_back eid c r, r.server) else (c, s)

unfoldable pub flush_removed : Fate → ℕ → ExtentClient → ExtentServer → ExtentClient × ExtentServer
unfolding took_out call
flush_removed f eid c s =
    let r = call f (Server.remove eid) ok s in
    if elem eid c.removed_extents then (took_out eid c r, r.server) else (c, s)

unfoldable pub flush : Fate → Fate → ℕ → ExtentClient → ExtentServer → ExtentClient × ExtentServer
unfolding flush_modified flush_removed
flush f g eid c s = let p = flush_modified f eid c s in flush_removed g eid (p.0) (p.1)
