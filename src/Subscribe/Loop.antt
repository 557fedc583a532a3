-- ===== src/Subscribe/Loop.antt =====
-- `run_subscription` of mount/src/subscribe.rs. The consumer is a function on a state of its own, which
-- says whether it wants more. Every round of the loop takes fuel, since nothing bounds them; `false`
-- beside the state is a loop that is still running.
pub mod Reading
pub mod Streams
use unidrive_mount_linux.Base.{ℕ, zero, suc, Bool, true, false, length, if◌then◌else◌}
use unidrive_mount_linux.Base.Exec.{ok, err}
use unidrive_mount_linux.Ipc.Client.{Link, Conn}
use unidrive_mount_linux.Ipc.Client.Handshake.{Secrets, connect_auth}
use unidrive_mount_linux.Ipc.Client.Verbs.{subscribe, read_event}
use unidrive_mount_linux.IpcAuth.{IpcAuth}
use unidrive_mount_linux.Reconnect.{is_auth_terminal}
use unidrive_mount_linux.Subscribe.{SubscriptionEvent, line, gap}

-- What comes of an attempt to establish the stream.
pub data Opening (l : Link) : Type 0 where
  refused : l.World → Opening l
  failed : l.World → Opening l
  opened : Conn l → Opening l

module _ (l : Link) (x : Secrets l.World) (auth : IpcAuth) (sleep : l.World → l.World) where
  open l use {World}

  -- `connect_auth` and `subscribe`: only a refusal of the handshake is final.
  unfoldable pub open_stream : World → Opening l
  unfolding connect_auth is_auth_terminal subscribe
  open_stream w =
      let (r, w1) = connect_auth l x auth w in
      elim r [
        | err e ↦ if is_auth_terminal e then refused w1 else failed w1
        | ok c ↦
            let (done, c') = subscribe l c in
            elim done [ ok u ↦ opened c' | err e ↦ failed c'.world ]
      ]

  module _ {S : Type 0} (on_event : SubscriptionEvent → S → Bool × S) where
    -- The inner loop: `false` where the consumer wants no more. Every line that is read takes a byte,
    -- so one more than the number of bytes is enough fuel.
    unfoldable pub read_events : ℕ → Conn l → S → Bool × S × World
    unfolding read_event
    read_events zero c s = (true, s, c.world)
    read_events (suc f) c s =
        let (r, c') = read_event l c in
        elim r [
          | err e ↦ (true, s, c'.world)
          | ok text ↦
              let (more, s') = on_event (line text) s in
              elim more [ true ↦ read_events f c' s' | false ↦ (false, s', c'.world) ]
        ]

    -- `had_stream && !on_event(Gap)`
    unfoldable pub report_gap : Bool → S → Bool × S
    report_gap had s = if had then on_event gap s else (true, s)

    -- `run_subscription`: whether it has ended
    unfoldable pub run_subscription : ℕ → Bool → S → World → Bool × S × World
    unfolding open_stream report_gap read_events
    run_subscription zero had s w = (false, s, w)
    run_subscription (suc f) had s w = elim (open_stream w) [
      | refused w' ↦ (true, s, w')
      | failed w' ↦ run_subscription f had s (sleep w')
      | opened c ↦
          let (more, s1) = report_gap had s in
          elim more [
            | false ↦ (true, s1, c.world)
            | true ↦
                let (again, s2, w2) = read_events (suc (length c.incoming)) c s1 in
                elim again [ false ↦ (true, s2, w2) | true ↦ run_subscription f true s2 (sleep w2) ]
          ]
    ]
