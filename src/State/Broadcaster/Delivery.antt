-- ===== src/State/Broadcaster/Delivery.antt =====
-- The guarantees of daemon/state/broadcaster.go: no panic, and no event lost to a subscriber.
use disc_echo_dd.Common.{
  ℕ, ◌≤◌, ◌≡◌, refl, ◌∙◌, Bool, true, false, List, [], ◌∷◌, ◌++◌, Option, some, ◌==◌, length, All,
  All-map, Bool-cases, if_false, inl, inr, append_assoc, append-nil, arith,
}
use disc_echo_dd.State.Broadcaster.{
  Channel, Broadcaster, BroadcastOp, publish_to, cancel_channel, close_channel, take, with_channels,
  each_channel, only, new_channel, step, run, new_broadcaster,
}
use disc_echo_dd.State.Broadcaster.Fed.{
  Since, Fed, published, Each, Each-All, unsubscribed-Fed, skip-Fed, closed-Fed, publish-Fed,
  close_channel-Fed, cancel_channel-Fed, take_from-Fed,
}

-- What the operations leave of a broadcaster.
abbrev pub AllFed : List BroadcastOp → Broadcaster → Type 0
AllFed done b = All (Fed b.closed done) b.channels

module _ (closed : Bool) (done : List BroadcastOp) (op : BroadcastOp) (id : ℕ) where
  only-Fed :
      (f : Channel → Option Channel)
      → published (op ∷ []) ≡ []
      → ((c : Channel) → Fed closed done c → Each (Fed closed (done ++ op ∷ [])) (f c))
      → (c : Channel) → Fed closed done c
      → Each (Fed closed (done ++ op ∷ [])) (only id f c)
  unfolding Each
  only-Fed f none_new h c p = elim (Bool-cases (c.id == id)) [
    | inl t ↦ rw t (h c p)
    | inr n ↦ (c, rw n refl, skip-Fed closed done op c none_new p)
  ]

with_channels-AllFed :
    (done : List BroadcastOp) (b : Broadcaster) (o : Option (List Channel))
    → Each (All (Fed b.closed done)) o
    → Each (AllFed done) (with_channels b o)
unfolding Each
with_channels-AllFed done b o (cs, e, a) = (record b { channels = cs }, rw e refl, a)

subscribed-Fed :
    (done : List BroadcastOp) (closed : Bool) (id n : ℕ)
    → Fed closed (done ++ BroadcastOp.subscribe id n ∷ []) (new_channel id n closed)
subscribed-Fed done true id n =
    unsubscribed-Fed true (done ++ BroadcastOp.subscribe id n ∷ []) (new_channel id n true) refl
      (omega arith)
subscribed-Fed done false id n = record {
  open_while_subscribed = λ t. refl;
  bounded = omega arith;
  live = λ t. refl;
  fed = λ t. (done, [], n, refl, refl);
}

step-AllFed :
    (done : List BroadcastOp) (op : BroadcastOp) (b : Broadcaster)
    → AllFed done b
    → Each (AllFed (done ++ op ∷ [])) (step op b)
unfolding step Each
step-AllFed done (BroadcastOp.subscribe id n) b a = (
  record b { channels = new_channel id n b.closed ∷ b.channels },
  refl,
  (
    subscribed-Fed done b.closed id n,
    All-map (Fed b.closed done) (Fed b.closed (done ++ BroadcastOp.subscribe id n ∷ [])) b.channels
        (λ c. skip-Fed b.closed done (BroadcastOp.subscribe id n) c refl) a,
  ),
)
step-AllFed done (BroadcastOp.publish e) b a = elim (Bool-cases b.closed) [
  | inl off ↦ (
    b,
    rw off refl,
    All-map (Fed b.closed done) (Fed b.closed (done ++ BroadcastOp.publish e ∷ [])) b.channels
        (λ c. closed-Fed b.closed done (done ++ BroadcastOp.publish e ∷ []) c off) a,
  )
  | inr on ↦
      let (x, t, q) =
        with_channels-AllFed (done ++ BroadcastOp.publish e ∷ []) b
          (each_channel (publish_to e) b.channels)
          (Each-All (Fed b.closed done) (Fed b.closed (done ++ BroadcastOp.publish e ∷ []))
            (publish_to e) b.channels (publish-Fed b.closed done e) a) in
      (
        x,
        if_false b.closed (some b) (with_channels b (each_channel (publish_to e) b.channels)) on
            ∙ t,
        q,
      )
]
step-AllFed done (BroadcastOp.cancel id) b a =
    with_channels-AllFed (done ++ BroadcastOp.cancel id ∷ []) b
      (each_channel (only id cancel_channel) b.channels)
      (Each-All (Fed b.closed done) (Fed b.closed (done ++ BroadcastOp.cancel id ∷ []))
        (only id cancel_channel) b.channels
        (only-Fed b.closed done (BroadcastOp.cancel id) id cancel_channel refl
          (λ c. cancel_channel-Fed b.closed done c id))
        a)
step-AllFed done (BroadcastOp.receive id) b a =
    with_channels-AllFed (done ++ BroadcastOp.receive id ∷ []) b
      (each_channel (only id (λ c. some (take c))) b.channels)
      (Each-All (Fed b.closed done) (Fed b.closed (done ++ BroadcastOp.receive id ∷ []))
        (only id (λ c. some (take c))) b.channels
        (only-Fed b.closed done (BroadcastOp.receive id) id (λ c. some (take c)) refl
          (λ c p. (take c, refl, take_from-Fed b.closed done c id c.buffer refl p)))
        a)
step-AllFed done BroadcastOp.shutdown b a = elim (Bool-cases b.closed) [
  | inl off ↦ (
    b,
    rw off refl,
    All-map (Fed b.closed done) (Fed b.closed (done ++ BroadcastOp.shutdown ∷ [])) b.channels
        (λ c. closed-Fed b.closed done (done ++ BroadcastOp.shutdown ∷ []) c off) a,
  )
  | inr on ↦
      let (x, t, q) =
        with_channels-AllFed (done ++ BroadcastOp.shutdown ∷ []) (record b { closed = true })
          (each_channel close_channel b.channels)
          (Each-All (Fed b.closed done) (Fed true (done ++ BroadcastOp.shutdown ∷ [])) close_channel
            b.channels (λ c. close_channel-Fed b.closed done c BroadcastOp.shutdown) a) in
      (
        x,
        if_false b.closed (some b)
              (with_channels (record b { closed = true }) (each_channel close_channel b.channels))
              on
            ∙ t,
        q,
      )
]

run-AllFed :
    (done ops : List BroadcastOp) (b : Broadcaster)
    → AllFed done b
    → Each (AllFed (done ++ ops)) (run ops b)
unfolding run Each
run-AllFed done [] b a = (b, refl, rw (append-nil done) a)
run-AllFed done (op ∷ ops) b a =
    let (c, e, q) = step-AllFed done op b a in
    let (d, f, r) = run-AllFed (done ++ op ∷ []) ops c q in
    (d, rw e f, rw (append_assoc done (op ∷ []) ops) at r)

-- No sequence of operations panics, no buffer exceeds its capacity, and a channel that is still
-- subscribed after it has received or holds exactly the events published since its subscription, in
-- their order.
pub broadcasts_delivered :
    (ops : List BroadcastOp)
    → (b : Broadcaster) × (run ops new_broadcaster ≡ some b)
      × All
          (λ (c : Channel). (length c.buffer ≤ c.capacity) × (c.subscribed ≡ true → Since ops c))
          b.channels
unfolding Each new_broadcaster
broadcasts_delivered ops =
    let (b, e, a) = run-AllFed [] ops new_broadcaster tt in
    (
      b,
      e,
      All-map (Fed b.closed ops)
          (λ c. (length c.buffer ≤ c.capacity) × (c.subscribed ≡ true → Since ops c)) b.channels
          (λ c p. (p.bounded, p.fed)) a,
    )
