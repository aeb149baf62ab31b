-- ===== src/State/Broadcaster/Fed.antt =====
-- What each operation of daemon/state/broadcaster.go leaves of one channel.
use disc_echo_dd.Common.{
  ℕ, ◌≤◌, ◌+◌, ◌≡◌, refl, sym, ap, ◌∙◌, Bool, true, false, List, [], ◌∷◌, ◌++◌, Option, some, ltb,
  length, length-append, All, Bool-cases, inl, inr, append_assoc, append-nil, arith,
}
use disc_echo_dd.State.Events.{Event}
use disc_echo_dd.State.Broadcaster.{
  Channel, BroadcastOp, close, drop, send, publish_to, cancel_channel, close_channel, take_from,
  each_channel,
}

-- The events that a sequence of operations publishes.
abbrev pub published : List BroadcastOp → List Event
published [] = []
published (BroadcastOp.publish e ∷ ops) = e ∷ published ops
published (_ ∷ ops) = published ops

-- Since its subscription the channel got every event published, in order.
abbrev pub Since : List BroadcastOp → Channel → Type 0
Since done c =
    (pre : List BroadcastOp) × (post : List BroadcastOp) × (n : ℕ) × (done
      ≡ pre ++ BroadcastOp.subscribe c.id n ∷ post)
    × (c.taken ++ c.buffer ≡ published post)

-- What holds of a channel after the operations `done`.
pub record Fed (closed : Bool) (done : List BroadcastOp) (c : Channel) : Type 0 where
  pub open_while_subscribed : c.subscribed ≡ true → c.is_closed ≡ false
  pub bounded : length c.buffer ≤ c.capacity
  pub live : c.subscribed ≡ true → closed ≡ false
  pub fed : c.subscribed ≡ true → Since done c

pub published-append :
    (xs ys : List BroadcastOp) → published (xs ++ ys) ≡ published xs ++ published ys
published-append [] ys = refl
published-append (BroadcastOp.publish e ∷ xs) ys = ap (λ es. e ∷ es) (published-append xs ys)
published-append (BroadcastOp.subscribe i n ∷ xs) ys = published-append xs ys
published-append (BroadcastOp.cancel i ∷ xs) ys = published-append xs ys
published-append (BroadcastOp.receive i ∷ xs) ys = published-append xs ys
published-append (BroadcastOp.shutdown ∷ xs) ys = published-append xs ys

-- An operation that brings a channel just what it publishes.
Since-more :
    (done : List BroadcastOp) (op : BroadcastOp) (c d : Channel)
    → d.id ≡ c.id
    → d.taken ++ d.buffer ≡ (c.taken ++ c.buffer) ++ published (op ∷ [])
    → Since done c
    → Since (done ++ op ∷ []) d
Since-more done op c d same more (pre, post, n, e, f) = (
  pre,
  post ++ op ∷ [],
  n,
  rw (e, same) (append_assoc pre (BroadcastOp.subscribe c.id n ∷ post) (op ∷ [])),
  more ∙ ap (λ es. es ++ published (op ∷ [])) f ∙ sym (published-append post (op ∷ [])),
)

unfoldable pub Each : {A : Type 0} → (A → Type 0) → Option A → Type 0
Each {A} Q o = (d : A) × (o ≡ some d) × Q d

pub Each-All :
    (P Q : Channel → Type 0) (f : Channel → Option Channel) (cs : List Channel)
    → ((c : Channel) → P c → Each Q (f c))
    → All P cs
    → Each (All Q) (each_channel f cs)
unfolding each_channel Each
Each-All P Q f [] h a = ([], refl, tt)
Each-All P Q f (c ∷ cs) h (p, a) =
    let (d, e, q) = h c p in
    let (ds, es, qs) = Each-All P Q f cs h a in (d ∷ ds, rw (e, es), (q, qs))

-- A channel that is not subscribed only has to keep its bound.
pub unsubscribed-Fed :
    (closed : Bool) (done : List BroadcastOp) (c : Channel)
    → c.subscribed ≡ false
    → length c.buffer ≤ c.capacity
    → Fed closed done c
unsubscribed-Fed closed done c off h = record {
  open_while_subscribed = λ t. absurd (cc (t, off));
  bounded = h;
  live = λ t. absurd (cc (t, off));
  fed = λ t. absurd (cc (t, off));
}

pub skip-Fed :
    (closed : Bool) (done : List BroadcastOp) (op : BroadcastOp) (c : Channel)
    → published (op ∷ []) ≡ []
    → Fed closed done c
    → Fed closed (done ++ op ∷ []) c
skip-Fed closed done op c none_new p = record {
  open_while_subscribed = p.open_while_subscribed;
  bounded = p.bounded;
  live = p.live;
  fed = λ t.
      Since-more done op c c refl (rw none_new (sym (append-nil (c.taken ++ c.buffer)))) (p.fed t);
}

-- After the shutdown no channel is subscribed.
pub closed-Fed :
    (closed : Bool) (done more : List BroadcastOp) (c : Channel)
    → closed ≡ true
    → Fed closed done c
    → Fed closed more c
closed-Fed closed done more c shut p = elim (Bool-cases c.subscribed) [
  | inl on ↦ absurd (let live = p.live on in cc (live, shut))
  | inr off ↦ unsubscribed-Fed closed more c off p.bounded
]

module _ (closed : Bool) (done : List BroadcastOp) (e : Event) (c : Channel) where
  pub publish-Fed :
      Fed closed done c → Each (Fed closed (done ++ BroadcastOp.publish e ∷ [])) (publish_to e c)
  unfolding publish_to send drop close Each
  publish-Fed p = elim (Bool-cases c.subscribed) [
    | inr off ↦ (
      c,
      rw off refl,
      unsubscribed-Fed closed (done ++ BroadcastOp.publish e ∷ []) c off p.bounded,
    )
    | inl on ↦ elim (Bool-cases (ltb (length c.buffer) c.capacity)) [
      | inl room ↦ (
        record c { buffer = c.buffer ++ e ∷ [] },
        rw (on, room, p.open_while_subscribed on) refl,
        record {
          open_while_subscribed = p.open_while_subscribed;
          bounded = rw (length-append c.buffer (e ∷ [])) (fits room);
          live = p.live;
          fed = λ t.
              Since-more done (BroadcastOp.publish e) c (record c { buffer = c.buffer ++ e ∷ [] })
                refl (sym (append_assoc c.taken c.buffer (e ∷ []))) (p.fed t);
        },
      )
      | inr full ↦ (
        record c { subscribed = false; is_closed = true },
        rw (on, full, p.open_while_subscribed on) refl,
        unsubscribed-Fed closed (done ++ BroadcastOp.publish e ∷ [])
            (record c { subscribed = false; is_closed = true }) refl p.bounded,
      )
    ]
  ]
    where
      fits : ltb (length c.buffer) c.capacity ≡ true → length c.buffer + 1 ≤ c.capacity
      fits room = ground arith

module _ (closed : Bool) (done : List BroadcastOp) (c : Channel) where
  pub close_channel-Fed :
      (op : BroadcastOp) → Fed closed done c → Each (Fed true (done ++ op ∷ [])) (close_channel c)
  unfolding close_channel drop close Each
  close_channel-Fed op p = elim (Bool-cases c.subscribed) [
    | inr off ↦ (c, rw off refl, unsubscribed-Fed true (done ++ op ∷ []) c off p.bounded)
    | inl on ↦ (
      record c { subscribed = false; is_closed = true },
      rw (on, p.open_while_subscribed on) refl,
      unsubscribed-Fed true (done ++ op ∷ []) (record c { subscribed = false; is_closed = true })
          refl p.bounded,
    )
  ]

  pub cancel_channel-Fed :
      (id : ℕ)
      → Fed closed done c
      → Each (Fed closed (done ++ BroadcastOp.cancel id ∷ [])) (cancel_channel c)
  unfolding cancel_channel drop close Each
  cancel_channel-Fed id p = elim (Bool-cases c.cancelled) [
    | inl gone ↦ (c, rw gone refl, skip-Fed closed done (BroadcastOp.cancel id) c refl p)
    | inr armed ↦ elim (Bool-cases c.subscribed) [
      | inr off ↦ (
        record c { cancelled = true },
        rw (armed, off) refl,
        unsubscribed-Fed closed (done ++ BroadcastOp.cancel id ∷ []) (record c { cancelled = true })
            off p.bounded,
      )
      | inl on ↦ (
        record c { cancelled = true; subscribed = false; is_closed = true },
        rw (armed, on, p.open_while_subscribed on) refl,
        unsubscribed-Fed closed (done ++ BroadcastOp.cancel id ∷ [])
            (record c { cancelled = true; subscribed = false; is_closed = true }) refl p.bounded,
      )
    ]
  ]

  pub take_from-Fed :
      (id : ℕ) (es : List Event)
      → c.buffer ≡ es
      → Fed closed done c
      → Fed closed (done ++ BroadcastOp.receive id ∷ []) (take_from es c)
  unfolding take_from
  take_from-Fed id [] b p = skip-Fed closed done (BroadcastOp.receive id) c refl p
  take_from-Fed id (e ∷ rest) b p = record {
    open_while_subscribed = p.open_while_subscribed;
    bounded = let h = rw b at p.bounded in omega (arith, h);
    live = p.live;
    fed = λ t.
        Since-more done (BroadcastOp.receive id) c
          (record c { buffer = rest; taken = c.taken ++ e ∷ [] }) refl moved (p.fed t);
  }
    where
      moved : (c.taken ++ e ∷ []) ++ rest ≡ (c.taken ++ c.buffer) ++ []
      moved = rw (b, append-nil (c.taken ++ e ∷ rest)) (append_assoc c.taken (e ∷ []) rest)
