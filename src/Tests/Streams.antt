-- ===== src/Tests/Streams.antt =====
-- Tests of the event stream and of the view that follows it.
use unidrive_mount_linux.Json
use unidrive_mount_linux.Base.Exec
use unidrive_mount_linux.Ipc.Client
use unidrive_mount_linux.Base.{
  ◌≡◌, refl, Bool, true, false, some, List, [], ◌∷◌, ◌++◌, list_eq, nat_eq, Str, str,
}
use unidrive_mount_linux.Base.Dict.{lookup}
use unidrive_mount_linux.Ipc.Client.{round_trip}
use unidrive_mount_linux.Ipc.Inbound.{max_inbound_line_bytes}
use unidrive_mount_linux.Fs.View.{kept_inodes, inodes_of, unsent}
use unidrive_mount_linux.Fs.View.Laws.{apply-all_exact, HasUnsent}
use unidrive_mount_linux.PathMap
use unidrive_mount_linux.PathMap.History.{call, calls}
use unidrive_mount_linux.Subscribe.{SubscriptionEvent, all}
use unidrive_mount_linux.Subscribe.Loop.{open_stream, run_subscription}
use unidrive_mount_linux.Subscribe.Loop.Reading.{stream_lines}
use unidrive_mount_linux.Ipc.Client.Verbs.{read_event}
use unidrive_mount_linux.Subscribe.Loop.Streams.{feed, narrate, streams, run_subscription-feed}
use unidrive_mount_linux.Tests.Network.{some_link, some_secrets, without_token, as_line}
use unidrive_mount_linux.Tests.Setting.{some_fs, some_attr, some_handle}
use mathlib.Core.List.Memᴰ
use unidrive_mount_linux.ViewRefresh.{apply_pending, keep_view_fresh}
use unidrive_mount_linux.ViewRefresh.Changes.{keep_view_fresh-gap}

-- Two streams, the first with one event.
abbrev script : List Str
script =
    as_line (str "d")
    ∷ (as_line (str "d") ++ as_line (str "e"))
    ∷ as_line (str "d")
    ∷ as_line (str "d")
    ∷ []

abbrev collect : SubscriptionEvent → List SubscriptionEvent → Bool × List SubscriptionEvent
collect ev told = (true, told ++ (ev ∷ []))

run_subscription-feed_example :
    (run_subscription some_link some_secrets without_token (λ w. w) collect 3 false [] script).1
    ≡ (feed collect
        (narrate false (streams some_link some_secrets without_token (λ w. w) 3 script))
        []).1
run_subscription-feed_example =
    run_subscription-feed some_link some_secrets without_token (λ w. w) collect 3 false [] script

two_streams :
    streams some_link some_secrets without_token (λ w. w) 3 script ≡ (str "e" ∷ []) ∷ [] ∷ []
unfolding streams nat_eq list_eq open_stream Exec.◌>>=◌ Exec.◌>>◌ Client.write_all Client.flush
    Client.read_line max_inbound_line_bytes Client.parse_reply Json.as_u64 Json.index Exec.pure
    Json.as_bool stream_lines read_event
two_streams = refl

sent : (keep_view_fresh some_link some_secrets without_token (λ w. w) 3 script).1 ≡ all ∷ []
unfolding keep_view_fresh nat_eq list_eq Exec.◌>>=◌ Exec.◌>>◌ Client.write_all Client.flush
    Client.read_line max_inbound_line_bytes Client.parse_reply Json.as_u64 Exec.pure
sent = refl

shown :
    lookup 3
      (apply_pending
        (keep_view_fresh some_link some_secrets without_token (λ w. w) 3 script).1
        some_fs).attrs
    ≡ some some_attr
unfolding apply_pending lookup nat_eq list_eq kept_inodes inodes_of unsent PathMap.inode_for calls
    call PathMap.intern PathMap.new
shown =
    rw sent
      ((apply-all_exact some_fs 3 some_attr).1 (refl, (1, some_handle, Memᴰ.head refl, refl, refl)))

keep_view_fresh-gap_example : (lookup 3 some_fs.attrs ≡ some some_attr) × HasUnsent some_fs 3
keep_view_fresh-gap_example =
    keep_view_fresh-gap some_link some_secrets without_token (λ w. w) 3 script (str "e" ∷ []) [] []
      two_streams some_fs 3 some_attr shown
