-- ===== src/Spool.antt =====
-- daemon/spool/spool.go: the staging directory. The file system under the root is the list of its
-- entries with the bytes below each, and what it refuses is an argument. The identifiers of jobs are
-- UUIDs, which name an entry of the root.
pub mod Gc
use disc_echo_dd.Common.{
  ℕ, suc, ◌+◌, ◌-◌, ◌<◌, Bool, true, false, not, ◌||◌, List, [], ◌∷◌, ◌++◌, map, Option, none, some,
  Text, text_eq, is_empty, codes, if◌then◌else◌, Result, ok, err, GoError, message, wrapped, ltb,
  keep_if, any_of, join_path,
}

-- A directory entry under the root: its name, and the size of what is below it.
abbrev pub Entry : Type 0
Entry = Text × ℕ

pub record Spool : Type 0 where
  pub root_dir : Text
  pub entries : List Entry
  pub cached_bytes : ℕ
  pub cached_at : Option ℕ

unfoldable pub path : Spool → Text → Text
unfolding join_path
path s job = join_path s.root_dir job

abbrev pub has_entry : Text → List Entry → Bool
has_entry name = any_of (λ (e : Entry). text_eq e.0 name)

-- os.MkdirAll of an entry's path: an existing directory is left as it is.
unfoldable pub mkdir_all : Text → Spool → Spool
mkdir_all name s =
    if has_entry name s.entries then s else record s { entries = s.entries ++ (name, 0) ∷ [] }

-- What is below an entry now has so many bytes.
unfoldable pub resize : Text → ℕ → Spool → Spool
resize name n s = record s {
  entries = map (λ (e : Entry). if text_eq e.0 name then (e.0, n) else e) s.entries;
}

-- os.RemoveAll of an entry's path
unfoldable pub remove_all : Text → Spool → Spool
remove_all name s = record s { entries = keep_if (λ (e : Entry). not (text_eq e.0 name)) s.entries }

-- `fault` is the file system's refusal, if there is one.
unfoldable pub create : Option GoError → Text → Spool → Result Text × Spool
unfolding path mkdir_all
create fault job s =
    if is_empty job then (err (message (codes "spool: jobID is required")), s) else elim fault [
      | some e ↦ (err (wrapped (codes "spool: mkdir " ++ path s job) e), s)
      | none ↦ (ok (path s job), mkdir_all job s)
    ]

unfoldable pub cleanup : Option GoError → Text → Spool → Result (Unit {0}) × Spool
unfolding path remove_all
cleanup fault job s =
    if is_empty job then (err (message (codes "spool: jobID is required")), s) else elim fault [
      | some e ↦ (err (wrapped (codes "spool: rm " ++ path s job) e), s)
      | none ↦ (ok tt, remove_all job s)
    ]

-- `keep[name]`
abbrev pub is_kept : List Text → List Text → Text → Bool
is_kept rips bases name = any_of (λ r. text_eq r name) rips || any_of (λ b. text_eq b name) bases

-- The loop over the entries of the root; `fails` says which removals the file system refuses.
unfoldable pub sweep : (Text → Bool) → (Text → Bool) → List Entry → List Entry × ℕ
sweep keep fails [] = ([], 0)
sweep keep fails (e ∷ es) =
    let (rest, n) = sweep keep fails es in
    if keep e.0 then (e ∷ rest, n) else if fails e.0 then (e ∷ rest, n) else (rest, suc n)

-- `refs` is the answer of ActiveSpoolReferences, `listing` an error of reading the root. A root that
-- is missing has no entries.
unfoldable pub gc :
    (Text → Bool) → Option GoError → Result (List Text × List Text) → Spool → Result ℕ × Spool
unfolding sweep
gc fails listing refs s = elim refs [
  | err e ↦ (err (wrapped (codes "spool: load active references") e), s)
  | ok (rips, bases) ↦ elim listing [
    | some e ↦ (err (wrapped (codes "spool: read root") e), s)
    | none ↦
        let (kept, n) = sweep (is_kept rips bases) fails s.entries in
        (ok n, record s { entries = kept })
  ]
]

unfoldable pub total_bytes : List Entry → ℕ
total_bytes [] = 0
total_bytes (e ∷ es) = e.1 + total_bytes es

-- 5 seconds, in nanoseconds.
abbrev pub usage_ttl : ℕ
usage_ttl = 5_000_000_000

abbrev pub is_fresh : Option ℕ → ℕ → Bool
is_fresh none now = false
is_fresh (some at) now = ltb (now - at) usage_ttl

-- `walk` is an error of the walk; a clock that does not run backwards.
unfoldable pub usage_bytes : ℕ → Option GoError → Spool → Result ℕ × Spool
unfolding total_bytes
usage_bytes now walk s = if is_fresh s.cached_at now then (ok s.cached_bytes, s) else elim walk [
  | some e ↦ (err (wrapped (codes "spool: walk") e), s)
  | none ↦
      let total = total_bytes s.entries in
      (ok total, record s { cached_bytes = total; cached_at = some now })
]
