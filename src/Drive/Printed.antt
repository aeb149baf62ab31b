-- ===== src/Drive/Printed.antt =====
-- What daemon/drive/udev.go reads from the properties that udev sends.
use disc_echo_dd.Common.{
  ℕ, ◌≡◌, refl, ap, ◌∙◌, sym, inl, inr, true, false, not, ◌||◌, List, [], ◌∷◌, ◌++◌, some, Text,
  codes, text_eq, is_empty, ◌==◌, split_on, split_on-append, Free, subst, text_eq_iff, All,
  All-append, Bool-cases,
}
use disc_echo_dd.Drive.{
  Uevent, empty_uevent, property, cut_key, cut_value, trim_dev, set_property, has_equals, read_line,
  read_lines, normalise, parse_uevent,
}

-- A property that can be sent: no line feed and no NUL, and no "=" in its key.
pub record Sendable (p : Text × Text) : Type 0 where
  pub key_plain : Free b'=' p.0
  pub key_line : Free b'\n' p.0
  pub key_text : Free 0 p.0
  pub value_line : Free b'\n' p.1
  pub value_text : Free 0 p.1

-- KEY=VALUE
abbrev pub assignment : Text × Text → Text
assignment (k, v) = k ++ b'=' ∷ v

-- The payload of some properties, each with a NUL behind it.
unfoldable pub printed : List (Text × Text) → Text
printed [] = []
printed (p ∷ ps) = assignment p ++ 0 ∷ printed ps

abbrev pub latest_first : List (Text × Text) → List (Text × Text) → List (Text × Text)
latest_first [] m = m
latest_first (p ∷ ps) m = latest_first ps (p ∷ m)

-- The fields of an event are those of its map.
pub record Agrees (e : Uevent) : Type 0 where
  pub action : e.action ≡ property (codes "ACTION") e.properties
  pub dev_path : e.dev_path ≡ property (codes "DEVPATH") e.properties
  pub subsystem : e.subsystem ≡ property (codes "SUBSYSTEM") e.properties
  pub dev_name : e.dev_name ≡ trim_dev (property (codes "DEVNAME") e.properties)
  pub dev_type : e.dev_type ≡ property (codes "DEVTYPE") e.properties

cut_key_lem : (k v : Text) → Free b'=' k → cut_key (k ++ b'=' ∷ v) ≡ k
unfolding cut_key
cut_key_lem [] v f = refl
cut_key_lem (c ∷ k) v (f, h) = rw (f, cut_key_lem k v h)

cut_value_lem : (k v : Text) → Free b'=' k → cut_value (k ++ b'=' ∷ v) ≡ v
unfolding cut_value
cut_value_lem [] v f = refl
cut_value_lem (c ∷ k) v (f, h) = rw (f, cut_value_lem k v h)

assigns : (k v : Text) → (is_empty (k ++ b'=' ∷ v) || not (has_equals (k ++ b'=' ∷ v))) ≡ false
assigns [] v = refl
assigns (c ∷ k) v = elim (Bool-cases (c == b'=')) [
  | inl t ↦ rw t refl
  | inr f ↦ rw (f, found k) refl
]
  where
    found : (k : Text) → has_equals (k ++ b'=' ∷ v) ≡ true
    found [] = refl
    found (c ∷ k) = elim (Bool-cases (c == b'=')) [
      | inl t ↦ rw t refl
      | inr f ↦ rw (f, found k) refl
    ]

read_line-assignment :
    (k v : Text) (e : Uevent) → Free b'=' k → read_line (assignment (k, v)) e ≡ set_property k v e
unfolding read_line
read_line-assignment k v e f = rw (assigns k v, cut_key_lem k v f, cut_value_lem k v f)

normalise-append : (s t : Text) → Free 0 s → normalise (s ++ 0 ∷ t) ≡ s ++ b'\n' ∷ normalise t
unfolding normalise
normalise-append [] t f = refl
normalise-append (c ∷ s) t (f, h) = rw (f, normalise-append s t h)

unfoldable set_properties : List (Text × Text) → Uevent → Uevent
set_properties [] e = e
set_properties ((k, v) ∷ ps) e = set_properties ps (set_property k v e)

assignment-Free :
    (d : ℕ) (k v : Text) → Free d k → (b'=' == d) ≡ false → Free d v → Free d (assignment (k, v))
assignment-Free d k v f e g = All-append (λ c. (c == d) ≡ false) k (b'=' ∷ v) f (e, g)

read_printed :
    (ps : List (Text × Text)) (e : Uevent)
    → All Sendable ps
    → read_lines (split_on b'\n' (normalise (printed ps))) e ≡ set_properties ps e
unfolding read_lines read_line printed set_properties normalise split_on
read_printed [] e a = refl
read_printed ((k, v) ∷ ps) e (s, a) =
    rw
      (
        normalise-append (assignment (k, v)) (printed ps)
            (assignment-Free 0 k v s.key_text refl s.value_text),
        split_on-append b'\n' (assignment (k, v)) (normalise (printed ps))
            (assignment-Free b'\n' k v s.key_line refl s.value_line),
      )
      (ap (read_lines (split_on b'\n' (normalise (printed ps))))
          (read_line-assignment k v e s.key_plain)
        ∙ read_printed ps (set_property k v e) a)

module _ (k v : Text) (e : Uevent) where
  abbrev stored : Uevent
  stored = record e { properties = (k, v) ∷ e.properties }

  set_other :
      text_eq k (codes "ACTION") ≡ false
      → text_eq k (codes "DEVPATH") ≡ false
      → text_eq k (codes "SUBSYSTEM") ≡ false
      → text_eq k (codes "DEVNAME") ≡ false
      → text_eq k (codes "DEVTYPE") ≡ false
      → set_property k v e ≡ stored
  unfolding set_property
  set_other a d s n t = rw (a, d, s, n, t)

abbrev Kept : Text → Text → Uevent → Type 0
Kept k v e =
    (Agrees e → Agrees (set_property k v e))
    × ((set_property k v e).properties ≡ (k, v) ∷ e.properties)

known : (key k v : Text) (e : Uevent) → text_eq k key ≡ true → Kept key v e → Kept k v e
known key k v e t h = subst (λ l. Kept l v e) (sym ((text_eq_iff k key).0 t)) h

set-Kept : (k v : Text) (e : Uevent) → Kept k v e
unfolding set_property property text_eq
set-Kept k v e = elim (Bool-cases (text_eq k (codes "ACTION"))) [
  | inl t ↦ known (codes "ACTION") k v e t (
    (λ a. record {
      action = refl;
      dev_path = a.dev_path;
      subsystem = a.subsystem;
      dev_name = a.dev_name;
      dev_type = a.dev_type;
    }),
    refl,
  )
  | inr fa ↦ elim (Bool-cases (text_eq k (codes "DEVPATH"))) [
    | inl t ↦ known (codes "DEVPATH") k v e t (
      (λ a. record {
        action = a.action;
        dev_path = refl;
        subsystem = a.subsystem;
        dev_name = a.dev_name;
        dev_type = a.dev_type;
      }),
      refl,
    )
    | inr fd ↦ elim (Bool-cases (text_eq k (codes "SUBSYSTEM"))) [
      | inl t ↦ known (codes "SUBSYSTEM") k v e t (
        (λ a. record {
          action = a.action;
          dev_path = a.dev_path;
          subsystem = refl;
          dev_name = a.dev_name;
          dev_type = a.dev_type;
        }),
        refl,
      )
      | inr fs ↦ elim (Bool-cases (text_eq k (codes "DEVNAME"))) [
        | inl t ↦ known (codes "DEVNAME") k v e t (
          (λ a. record {
            action = a.action;
            dev_path = a.dev_path;
            subsystem = a.subsystem;
            dev_name = refl;
            dev_type = a.dev_type;
          }),
          refl,
        )
        | inr fn ↦ elim (Bool-cases (text_eq k (codes "DEVTYPE"))) [
          | inl t ↦ known (codes "DEVTYPE") k v e t (
            (λ a. record {
              action = a.action;
              dev_path = a.dev_path;
              subsystem = a.subsystem;
              dev_name = a.dev_name;
              dev_type = refl;
            }),
            refl,
          )
          | inr ft ↦ other_key fa fd fs fn ft
        ]
      ]
    ]
  ]
]
  where
    other_key :
        text_eq k (codes "ACTION") ≡ false
        → text_eq k (codes "DEVPATH") ≡ false
        → text_eq k (codes "SUBSYSTEM") ≡ false
        → text_eq k (codes "DEVNAME") ≡ false
        → text_eq k (codes "DEVTYPE") ≡ false
        → Kept k v e
    other_key fa fd fs fn ft =
        let same = set_other k v e fa fd fs fn ft in
        (
          (λ a. subst Agrees (sym same) (record {
            action = rw fa a.action;
            dev_path = rw fd a.dev_path;
            subsystem = rw fs a.subsystem;
            dev_name = rw fn a.dev_name;
            dev_type = rw ft a.dev_type;
          })),
          ap (λ u. u.properties) same,
        )

set_all-Kept :
    (ps : List (Text × Text)) (e : Uevent)
    → Agrees e
    → Agrees (set_properties ps e)
      × ((set_properties ps e).properties ≡ latest_first ps e.properties)
unfolding set_properties
set_all-Kept [] e a = (a, refl)
set_all-Kept ((k, v) ∷ ps) e a =
    let (keeps, adds) = set-Kept k v e in
    let (b, m) = set_all-Kept ps (set_property k v e) (keeps a) in
    (b, m ∙ ap (latest_first ps) adds)

empty-Agrees : Agrees empty_uevent
unfolding property trim_dev
empty-Agrees = record {
  action = refl;
  dev_path = refl;
  subsystem = refl;
  dev_name = refl;
  dev_type = refl;
}

-- What udev prints reads back: of at least one property, each without a line feed or a NUL and with
-- no "=" in its key, the event has them all, the latest of a key winning, and its fields are those of
-- its map, the node's name without its directory.
pub parse_uevent-printed :
    (p : Text × Text) (ps : List (Text × Text))
    → All Sendable (p ∷ ps)
    → (e : Uevent) × (parse_uevent (printed (p ∷ ps)) ≡ some e)
      × (e.properties ≡ latest_first (p ∷ ps) [])
      × Agrees e
unfolding parse_uevent printed
parse_uevent-printed (k, v) ps a =
    let (agrees, all) = set_all-Kept ((k, v) ∷ ps) empty_uevent empty-Agrees in
    (
      set_properties ((k, v) ∷ ps) empty_uevent,
      full k ∙ ap some (read_printed ((k, v) ∷ ps) empty_uevent a),
      all,
      agrees,
    )
  where
    full :
        (k : Text)
        → parse_uevent (printed ((k, v) ∷ ps))
          ≡ some (read_lines (split_on b'\n' (normalise (printed ((k, v) ∷ ps)))) empty_uevent)
    full [] = refl
    full (c ∷ k) = refl
