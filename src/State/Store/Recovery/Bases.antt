-- ===== src/State/Store/Recovery/Bases.antt =====
-- The last part of a path, as daemon/state/store.go and daemon/jobs/compute.go take it.
use disc_echo_dd.Common.{◌≡◌, ◌≢◌, refl, ◌||◌, [], ◌∷◌, ◌++◌, Text, arith, ◌==◌, if◌then◌else◌, All}
use disc_echo_dd.State.Store.Recovery.{base_from, basename_of}

-- No slash and no backslash.
abbrev pub IsName : Text → Type 0
IsName = All (λ c. (c ≢ b'/') × (c ≢ b'\\'))

base_from_name : (s base : Text) → IsName s → base_from s base ≡ base
unfolding base_from
base_from_name [] base h = refl
base_from_name (c ∷ s) base ((h, k), hs) = ground (arith, base_from_name s base hs)

base_from-append : (dir name base : Text) → IsName name → base_from (dir ++ b'/' ∷ name) base ≡ name
unfolding base_from
base_from-append [] name base h = base_from_name name name h
base_from-append (c ∷ dir) name base h =
    base_from-append dir name (if (c == b'/') || (c == b'\\') then dir ++ b'/' ∷ name else base) h

-- The last part of a directory joined with a plain name is that name.
pub basename-join : (dir name : Text) → IsName name → basename_of (dir ++ b'/' ∷ name) ≡ name
unfolding basename_of
basename-join dir name h = base_from-append dir name (dir ++ b'/' ∷ name) h

pub basename-name : (name : Text) → IsName name → basename_of name ≡ name
unfolding basename_of
basename-name name h = base_from_name name name h
