-- ===== src/Pipelines/Titles/Best.antt =====
-- The loop of PickLongestTitle in daemon/pipelines/movie_title_select.go returns a longest title.
use disc_echo_dd.Common.{
  ℕ, ◌≤◌, ◌<◌, ◌≡◌, refl, ◌⊎◌, inl, inr, true, false, List, [], ◌∷◌, Option, none, some, ltb, Memᴰ,
  Bool-cases, arith,
}
use mathlib.Core.List.Memᴰ
use disc_echo_dd.Pipelines.Titles.{MakeMkvTitle, is_better, longest_from}

-- The longest of the titles so far and of those to come.
pub record Longest (min : ℕ) (titles : List MakeMkvTitle) (t : MakeMkvTitle) : Type 0 where
  pub listed : Memᴰ t titles
  pub qualified : min ≤ t.duration_sec
  pub longest :
      (u : MakeMkvTitle) → Memᴰ u titles → min ≤ u.duration_sec → u.duration_sec ≤ t.duration_sec

-- What a run of the loop from `best` returns.
record Ends (min : ℕ) (ts : List MakeMkvTitle) (best : Option MakeMkvTitle) (r : MakeMkvTitle)
    : Type 0 where
  pub from : (Memᴰ r ts × (min ≤ r.duration_sec)) ⊎ (best ≡ some r)
  pub above :
      (u : MakeMkvTitle) → Memᴰ u ts → min ≤ u.duration_sec → u.duration_sec ≤ r.duration_sec
  pub above_best : (b : MakeMkvTitle) → best ≡ some b → b.duration_sec ≤ r.duration_sec

module _ (min : ℕ) (t : MakeMkvTitle) (ts : List MakeMkvTitle) (r : MakeMkvTitle) where
  above_cons :
      (min ≤ t.duration_sec → t.duration_sec ≤ r.duration_sec)
      → ((u : MakeMkvTitle) → Memᴰ u ts → min ≤ u.duration_sec → u.duration_sec ≤ r.duration_sec)
      → (u : MakeMkvTitle) → Memᴰ u (t ∷ ts)
      → min ≤ u.duration_sec
      → u.duration_sec ≤ r.duration_sec
  above_cons first rest u (Memᴰ.head e) = rw e first
  above_cons first rest u (Memᴰ.tail m) = rest u m

  later :
      (best : Option MakeMkvTitle)
      → (Memᴰ r ts × (min ≤ r.duration_sec)) ⊎ (best ≡ some r)
      → (Memᴰ r (t ∷ ts) × (min ≤ r.duration_sec)) ⊎ (best ≡ some r)
  later best (inl (m, q)) = inl (Memᴰ.tail m, q)
  later best (inr e) = inr e

  skipped-Ends :
      (best : Option MakeMkvTitle)
      → ltb t.duration_sec min ≡ true
      → Ends min ts best r
      → Ends min (t ∷ ts) best r
  skipped-Ends best short h = record {
    from = later best h.from;
    above = above_cons (λ q. absurd (ground (arith, short, q))) h.above;
    above_best = h.above_best;
  }

  passed-Ends :
      (b : MakeMkvTitle)
      → ltb b.duration_sec t.duration_sec ≡ false
      → Ends min ts (some b) r
      → Ends min (t ∷ ts) (some b) r
  passed-Ends b worse h = record {
    from = later (some b) h.from;
    above = above_cons (λ q. let low = h.above_best b refl in ground (arith, low, worse)) h.above;
    above_best = h.above_best;
  }

  taken-Ends :
      (best : Option MakeMkvTitle)
      → ltb t.duration_sec min ≡ false
      → is_better best t ≡ true
      → Ends min ts (some t) r
      → Ends min (t ∷ ts) best r
  taken-Ends best long better h = record {
    from = inl (first h.from);
    above = above_cons (λ q. h.above_best t refl) h.above;
    above_best = lower best better;
  }
    where
      first :
          (Memᴰ r ts × (min ≤ r.duration_sec)) ⊎ (some t ≡ some r)
          → Memᴰ r (t ∷ ts) × (min ≤ r.duration_sec)
      first (inl (m, q)) = (Memᴰ.tail m, q)
      first (inr e) = let same : r ≡ t = cc (e) in rw same (Memᴰ.head refl, ground (arith, long))

      lower :
          (best : Option MakeMkvTitle)
          → is_better best t ≡ true
          → (b : MakeMkvTitle) → best ≡ some b
          → b.duration_sec ≤ r.duration_sec
      lower none better b e = absurd cc
      lower (some c) better b e =
          let same : b ≡ c = cc (e) in
          let low = h.above_best t refl in rw same (ground (arith, low, better))

module _ (min : ℕ) where
  longest_from-Ends :
      (ts : List MakeMkvTitle) (best : Option MakeMkvTitle) (r : MakeMkvTitle)
      → longest_from min ts best ≡ some r
      → Ends min ts best r
  unfolding longest_from
  longest_from-Ends [] best r e = record {
    from = inr e;
    above = λ u m. elim m [ ];
    above_best = λ b f. let same : b ≡ r = cc (e, f) in rw same (omega arith);
  }
  longest_from-Ends (t ∷ ts) none r e = elim (Bool-cases (ltb t.duration_sec min)) [
    | inl short ↦ skipped-Ends min t ts r none short (longest_from-Ends ts none r (rw short at e))
    | inr long ↦
        taken-Ends min t ts r none long refl (longest_from-Ends ts (some t) r (rw long at e))
  ]
  longest_from-Ends (t ∷ ts) (some b) r e = elim (Bool-cases (ltb t.duration_sec min)) [
    | inl short ↦
        skipped-Ends min t ts r (some b) short (longest_from-Ends ts (some b) r (rw short at e))
    | inr long ↦ elim (Bool-cases (ltb b.duration_sec t.duration_sec)) [
      | inl better ↦
          taken-Ends min t ts r (some b) long better
            (longest_from-Ends ts (some t) r (rw (long, better) at e))
      | inr worse ↦
          passed-Ends min t ts r b worse (longest_from-Ends ts (some b) r (rw (long, worse) at e))
    ]
  ]

  -- Once there is a best title, the loop ends with one.
  longest_from-some :
      (ts : List MakeMkvTitle) (b : MakeMkvTitle)
      → (r : MakeMkvTitle) × (longest_from min ts (some b) ≡ some r)
  unfolding longest_from
  longest_from-some [] b = (b, refl)
  longest_from-some (t ∷ ts) b = elim (Bool-cases (ltb t.duration_sec min)) [
    | inl short ↦ rw short (longest_from-some ts b)
    | inr long ↦ elim (Bool-cases (ltb b.duration_sec t.duration_sec)) [
      | inl better ↦ rw (long, better) (longest_from-some ts t)
      | inr worse ↦ rw (long, worse) (longest_from-some ts b)
    ]
  ]

  pub longest_from-none :
      (ts : List MakeMkvTitle)
      → longest_from min ts none ≡ none
      → (u : MakeMkvTitle) → Memᴰ u ts
      → u.duration_sec < min
  unfolding longest_from
  longest_from-none [] e u m = elim m [ ]
  longest_from-none (t ∷ ts) e u m = elim (Bool-cases (ltb t.duration_sec min)) [
    | inl short ↦ elim (Memᴰ.cases_cons m) [
      | inl same ↦ rw same (ground (arith, short))
      | inr n ↦ longest_from-none ts (rw short at e) u n
    ]
    | inr long ↦ absurd (let (r, f) = longest_from-some ts t in let g = rw long at e in cc (f, g))
  ]

pub Longest-of :
    (min : ℕ) (titles : List MakeMkvTitle) (t : MakeMkvTitle)
    → longest_from min titles none ≡ some t
    → Longest min titles t
Longest-of min titles t e = best h.from
  where
    h : Ends min titles none t
    h = longest_from-Ends min titles none t e

    best : (Memᴰ t titles × (min ≤ t.duration_sec)) ⊎ (none ≡ some t) → Longest min titles t
    best (inr f) = absurd cc
    best (inl (m, q)) = record { listed = m; qualified = q; longest = h.above }
