-- ===== src/State/Store/Jobs/Keeps.antt =====
-- The statements of daemon/state/store.go that leave the states of all jobs alone.
use disc_echo_dd.Common.{◌≡◌, refl, ◌∙◌, Bool, true, false, Text, ok, Bool-cases, inl, inr, ◌⊎◌}
use disc_echo_dd.State.Types.{Job}
use disc_echo_dd.State.Rows.{Db}
use disc_echo_dd.State.Store.Table.{update_row}
use disc_echo_dd.State.Store.Jobs.{get_job, update_jobs}
use disc_echo_dd.State.Store.Jobs.States.{get-update_jobs}

-- What the queries and the retry rules read of a job is unchanged.
pub record SameJob (j k : Job) : Type 0 where
  pub state : k.state ≡ j.state
  pub kind : k.kind ≡ j.kind
  pub spool_path : k.spool_path ≡ j.spool_path

-- Every job of the first database is in the second, with the same state.
abbrev pub Keeps : Db → Db → Type 0
Keeps db db' =
    (id : Text) (j : Job) → get_job db id ≡ ok j → (k : Job) × (get_job db' id ≡ ok k) × SameJob j k

pub SameJob-refl : (j : Job) → SameJob j j
SameJob-refl j = record { state = refl; kind = refl; spool_path = refl }

pub SameJob-trans : {i j k : Job} → SameJob i j → SameJob j k → SameJob i k
SameJob-trans p q = record {
  state = q.state ∙ p.state;
  kind = q.kind ∙ p.kind;
  spool_path = q.spool_path ∙ p.spool_path;
}

pub Keeps-refl : (db : Db) → Keeps db db
Keeps-refl db id j e = (j, e, SameJob-refl j)

pub Keeps-trans : (a b c : Db) → Keeps a b → Keeps b c → Keeps a c
Keeps-trans a b c p q id j e =
    let (k, f, same) = p id j e in let (l, g, same') = q id k f in (l, g, SameJob-trans same same')

-- A database with the same table of jobs.
pub Keeps-same_jobs : (db db' : Db) → db'.jobs ≡ db.jobs → Keeps db db'
unfolding get_job
Keeps-same_jobs db db' h id j e = (j, rw h e, SameJob-refl j)

pub Keeps-update_jobs :
    (p : Job → Bool) (f : Job → Job) (db : Db)
    → ((x : Job) → ((f x).id ≡ x.id) × SameJob x (f x))
    → Keeps db (update_jobs p f db)
Keeps-update_jobs p f db h id j e =
    (update_row p f j, get-update_jobs p f db id j (λ x. (h x).0) e, same (Bool-cases (p j)))
  where
    same : (p j ≡ true) ⊎ (p j ≡ false) → SameJob j (update_row p f j)
    same (inl t) = rw t (h j).1
    same (inr t) = rw t (SameJob-refl j)
