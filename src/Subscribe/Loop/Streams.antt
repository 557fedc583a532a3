-- ===== src/Subscribe/Loop/Streams.antt =====
-- What the consumer of mount/src/subscribe.rs is told, stream by stream.
use unidrive_mount_linux.Base.{
  ℕ, zero, suc, ◌≡◌, refl, inl, inr, Bool, true, false, List, [], ◌∷◌, ◌++◌, map, arith, length,
  list_eq, nat_eq, Bool-cases, Str, if◌then◌else◌,
}
use unidrive_mount_linux.Base.Exec.{Result-cases}
use unidrive_mount_linux.Ipc.Client.{Link, Conn}
use unidrive_mount_linux.Ipc.Client.Handshake.{Secrets}
use unidrive_mount_linux.Ipc.Client.Verbs.{read_event}
use unidrive_mount_linux.IpcAuth.{IpcAuth}
use unidrive_mount_linux.Subscribe.{SubscriptionEvent, line, gap}
use unidrive_mount_linux.Subscribe.Loop.Reading.{stream_lines}
use unidrive_mount_linux.Subscribe.Loop.{
  Opening, open_stream, read_events, report_gap, run_subscription, refused, failed, opened,
}

data OpeningCases {l : Link} (r : Opening l) : Type 0 where
  refusal : (w : l.World) → r ≡ refused w → OpeningCases r
  failure : (w : l.World) → r ≡ failed w → OpeningCases r
  success : (c : Conn l) → r ≡ opened c → OpeningCases r

Opening-cases : {l : Link} (r : Opening l) → OpeningCases r
Opening-cases (refused w) = refusal w refl
Opening-cases (failed w) = failure w refl
Opening-cases (opened c) = success c refl

-- A consumer that is told events in turn, until it wants no more.
unfoldable pub feed :
    {S : Type 0} → (SubscriptionEvent → S → Bool × S) → List SubscriptionEvent → S → Bool × S
feed on_event [] s = (true, s)
feed on_event (e ∷ es) s =
    let (more, s') = on_event e s in elim more [ true ↦ feed on_event es s' | false ↦ (false, s') ]

feed-append :
    {S : Type 0} (on_event : SubscriptionEvent → S → Bool × S) (es ds : List SubscriptionEvent)
    (s : S)
    → feed on_event (es ++ ds) s ≡ (
        if (feed on_event es s).0
        then feed on_event ds (feed on_event es s).1
        else (false, (feed on_event es s).1))
unfolding feed
feed-append on_event [] ds s = refl
feed-append on_event (e ∷ es) ds s = elim (Bool-cases (on_event e s).0) [
  | inl m ↦ rw (m, feed) (feed-append on_event es ds (on_event e s).1)
  | inr m ↦ rw (m, feed) refl
]

-- The events of streams: their lines, and a gap before each stream but the first.
unfoldable pub narrate : Bool → List (List Str) → List SubscriptionEvent
narrate had [] = []
narrate had (lines ∷ rest) = (if had then gap ∷ [] else []) ++ (map line lines ++ narrate true rest)

module _ (l : Link) (x : Secrets l.World) (auth : IpcAuth) (sleep : l.World → l.World) where
  -- The streams that are established in so many rounds, each as its lines.
  unfoldable pub streams : ℕ → l.World → List (List Str)
  streams zero w = []
  streams (suc f) w = elim (open_stream l x auth sleep w) [
    | refused w' ↦ []
    | failed w' ↦ streams f (sleep w')
    | opened c ↦
        let (lines, w') = stream_lines l (suc (length c.incoming)) c in lines ∷ streams f (sleep w')
  ]

  module _ {S : Type 0} (on_event : SubscriptionEvent → S → Bool × S) where
    -- What the inner loop comes to: the consumer fed with the lines, and the stream's end if it wants
    -- more.
    read_events-feed :
        (f : ℕ) (c : Conn l) (s : S)
        → ((read_events l x auth sleep on_event f c s).0
            ≡ (feed on_event (map line (stream_lines l f c).0) s).0)
          × ((read_events l x auth sleep on_event f c s).1
              ≡ (feed on_event (map line (stream_lines l f c).0) s).1)
          × ((read_events l x auth sleep on_event f c s).0 ≡ true
              → (read_events l x auth sleep on_event f c s).2 ≡ (stream_lines l f c).1)
    unfolding read_events stream_lines feed
    read_events-feed zero c s = (refl, refl, λ h. refl)
    read_events-feed (suc f) c s = elim (Result-cases (read_event l c).0) [
      | inr (e, r) ↦ rw (r, read_events, stream_lines) (refl, refl, λ h. refl)
      | inl (text, r) ↦ elim (Bool-cases (on_event (line text) s).0) [
        | inl m ↦
            rw (r, m, read_events, stream_lines, feed)
              (read_events-feed f (read_event l c).1 (on_event (line text) s).1)
        | inr m ↦ rw (r, m, read_events, stream_lines, feed) (refl, refl, λ h. cc)
      ]
    ]

    abbrev opening_events : Bool → List SubscriptionEvent
    opening_events had = if had then gap ∷ [] else []

    report_gap-feed :
        (had : Bool) (s : S)
        → report_gap l x auth sleep on_event had s ≡ feed on_event (opening_events had) s
    unfolding report_gap feed
    report_gap-feed false s = refl
    report_gap-feed true s = elim (Bool-cases (on_event gap s).0) [
      | inl m ↦ ground arith
      | inr m ↦ ground arith
    ]

    -- A round that establishes a stream, told by the events of the stream.
    feed_round :
        (had : Bool) (lines : List Str) (rest : List SubscriptionEvent) (s : S)
        → feed on_event (opening_events had ++ (map line lines ++ rest)) s ≡ (
            let (more, s1) = report_gap l x auth sleep on_event had s in
            let (again, s2) = feed on_event (map line lines) s1 in
            if more then (if again then feed on_event rest s2 else (false, s2)) else (false, s1))
    feed_round had lines rest s =
        rw
          (
            feed-append on_event (opening_events had) (map line lines ++ rest) s,
            report_gap-feed had s,
            feed-append on_event (map line lines) rest (feed on_event (opening_events had) s).1,
          )
          refl

    -- However a consumer is made, in any number of rounds it is told the lines of the streams that
    -- were established, in order, with one gap before each stream but the first (before the first too
    -- if there was a stream before), until it wants no more; nothing else reaches it.
    pub run_subscription-feed :
        (f : ℕ) (had : Bool) (s : S) (w : l.World)
        → (run_subscription l x auth sleep on_event f had s w).1
          ≡ (feed on_event (narrate had (streams f w)) s).1
    unfolding run_subscription streams narrate
    run_subscription-feed zero had s w = unfold feed in refl
    run_subscription-feed (suc f) had s w = elim (Opening-cases (open_stream l x auth sleep w)) [
      | refusal w' o ↦ rw (o, run_subscription, streams) (unfold feed in refl)
      | failure w' o ↦ rw (o, run_subscription, streams) (run_subscription-feed f had s (sleep w'))
      | success c o ↦
          let n = suc (length c.incoming) in
          let told = stream_lines l n c in
          let s1 = (report_gap l x auth sleep on_event had s).1 in
          let (again, state, world) = read_events-feed n c s1 in
          elim (Bool-cases (report_gap l x auth sleep on_event had s).0) [
            | inr m ↦
                rw
                  (
                    o,
                    run_subscription,
                    streams,
                    narrate,
                    feed_round had told.0 (narrate true (streams f (sleep told.1))) s,
                    m,
                  )
                  refl
            | inl m ↦ elim (Bool-cases (feed on_event (map line told.0) s1).0) [
              | inr k ↦
                  rw
                    (
                      o,
                      run_subscription,
                      streams,
                      narrate,
                      feed_round had told.0 (narrate true (streams f (sleep told.1))) s,
                      m,
                      again,
                      k,
                    )
                    state
              | inl k ↦
                  rw
                    (
                      o,
                      run_subscription,
                      streams,
                      narrate,
                      feed_round had told.0 (narrate true (streams f (sleep told.1))) s,
                      m,
                      again,
                      k,
                      world (rw again k),
                      state,
                    )
                    (run_subscription-feed f true _ (sleep told.1))
            ]
          ]
    ]
