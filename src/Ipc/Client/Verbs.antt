-- ===== src/Ipc/Client/Verbs.antt =====
-- The verbs of `IpcClient` in mount/src/ipc.rs.
use unidrive_mount_linux.Base.{Option, none, some, List, [], ◌∷◌, map, true, false, Str, str}
use unidrive_mount_linux.Base.Exec.{Result, ok, err, ◌>>=◌}
use unidrive_mount_linux.Base.Int.{ℤ}
use unidrive_mount_linux.Host.{CreateReply}
use unidrive_mount_linux.Ipc.{IpcError, io, malformed, unknown}
use unidrive_mount_linux.Ipc.Client.{Link, Ipc, json, is_ok, call, round_trip, settle}
use unidrive_mount_linux.Ipc.Entry.{ListEntry, parse_list_entry}
use unidrive_mount_linux.Ipc.Inbound.{read_event_line}
use unidrive_mount_linux.Json.{
  Value, string, Items, nil, item, index, as_str, as_array, as_i64, unwrap_or,
}

-- A request of a verb with its arguments.
unfoldable pub request : Str → List (Str × Str) → Value
unfolding json
request verb args = json (map (λ (k, v). (k, string v)) ((str "verb", verb) ∷ args))

-- The verbs whose reply says nothing but that they were done.
unfoldable pub done : Value → Result IpcError (Unit {0})
done reply = ok tt

module _ (l : Link) where
  -- `.ok_or_else(|| IpcError::Malformed(reply.to_string()))`
  abbrev pub or_malformed : {A : Type 0} → Value → Option A → Result IpcError A
  or_malformed v none = err (malformed (l.print v))
  or_malformed v (some a) = ok a

  unfoldable pub cache_path_of : Value → Result IpcError Str
  cache_path_of reply = or_malformed reply (as_str (index reply (str "cache_path")))

  unfoldable pub open_read : Str → Str → Ipc l Str
  unfolding call request cache_path_of
  open_read handle_id path =
      call l
        (request (str "hydration.open_read")
          ((str "handle_id", handle_id) ∷ (str "path", path) ∷ []))
        cache_path_of

  unfoldable pub open_write : Str → Str → Str → Ipc l Str
  unfolding call request cache_path_of
  open_write handle_id path cache_path =
      call l
        (request (str "hydration.open_write")
          ((str "handle_id", handle_id) ∷ (str "path", path) ∷ (str "cache_path", cache_path) ∷ []))
        cache_path_of

  -- Without a handle the daemon is told of none.
  unfoldable pub open_write_begin : Str → Option Str → Ipc l Str
  unfolding call request cache_path_of
  open_write_begin path handle_id =
      call l
        (request (str "hydration.open_write_begin")
          ((str "path", path) ∷ elim handle_id [ none ↦ [] | some h ↦ (str "handle_id", h) ∷ [] ]))
        cache_path_of

  unfoldable pub close_handle : Str → Ipc l (Unit {0})
  unfolding call request done
  close_handle handle_id =
      call l (request (str "hydration.close_handle") ((str "handle_id", handle_id) ∷ [])) done

  -- The verbs that have a path and no answer.
  unfoldable pub path_verb : Str → Str → Ipc l (Unit {0})
  unfolding call request done
  path_verb verb path = call l (request verb ((str "path", path) ∷ [])) done

  unfoldable pub hydrate : Str → Ipc l (Unit {0})
  unfolding path_verb
  hydrate = path_verb (str "hydration.hydrate")

  unfoldable pub dehydrate : Str → Ipc l (Unit {0})
  unfolding path_verb
  dehydrate = path_verb (str "hydration.dehydrate")

  unfoldable pub mkdir : Str → Ipc l (Unit {0})
  unfolding path_verb
  mkdir = path_verb (str "hydration.mkdir")

  unfoldable pub unlink : Str → Ipc l (Unit {0})
  unfolding path_verb
  unlink = path_verb (str "hydration.unlink")

  unfoldable pub rmdir : Str → Ipc l (Unit {0})
  unfolding path_verb
  rmdir = path_verb (str "hydration.rmdir")

  unfoldable pub rename : Str → Str → Ipc l (Unit {0})
  unfolding call request done
  rename old_path new_path =
      call l
        (request (str "hydration.rename")
          ((str "old_path", old_path) ∷ (str "new_path", new_path) ∷ []))
        done

  unfoldable pub daemon_status : Ipc l Value
  unfolding call request
  daemon_status = call l (request (str "daemon.status") []) (λ reply. ok reply)

  unfoldable pub subscribe : Ipc l (Unit {0})
  unfolding call request done
  subscribe = call l (request (str "hydration.subscribe") []) done

  unfoldable pub created : Value → Result IpcError CreateReply
  unfolding cache_path_of
  created reply = elim (cache_path_of reply) [
    | err e ↦ err e
    | ok cache ↦ elim (as_str (index reply (str "handle_id"))) [
      | none ↦ err (malformed (l.print reply))
      | some id ↦ ok (record { cache_path = cache; handle_id = id })
    ]
  ]

  unfoldable pub create : Str → Str → Ipc l CreateReply
  unfolding call request created
  create handle_id path =
      call l
        (request (str "hydration.create") ((str "handle_id", handle_id) ∷ (str "path", path) ∷ []))
        created

  -- A refusal of `hydration.last_synced` has a reason and is told apart from other errors.
  unfoldable pub synced_at : Value → Result IpcError ℤ
  unfolding is_ok
  synced_at reply = elim (is_ok reply) [
    | false ↦ err (unknown (unwrap_or (as_str (index reply (str "error"))) (str "unknown")))
    | true ↦ or_malformed reply (as_i64 (index reply (str "mtime_ms")))
  ]

  unfoldable pub last_synced : Str → Ipc l ℤ
  unfolding request round_trip settle synced_at ◌>>=◌
  last_synced path = do
    reply ← round_trip l (request (str "hydration.last_synced") ((str "path", path) ∷ []))
    settle l (synced_at reply)

  -- The loop over the entries: all of them, or the error of the first that is malformed.
  unfoldable pub parse_entries : Items → Result IpcError (List ListEntry)
  unfolding parse_list_entry
  parse_entries nil = ok []
  parse_entries (item v vs) =
      let rest = parse_entries vs in
      elim (parse_list_entry v) [
        | none ↦ err (malformed (l.print v))
        | some e ↦ elim rest [ err x ↦ err x | ok es ↦ ok (e ∷ es) ]
      ]

  unfoldable pub listed : Value → Result IpcError (List ListEntry)
  unfolding parse_entries
  listed reply = elim (as_array (index reply (str "entries"))) [
    | none ↦ err (malformed (l.print reply))
    | some entries ↦ parse_entries entries
  ]

  unfoldable pub list : Str → Ipc l (List ListEntry)
  unfolding call request listed
  list prefix = call l (request (str "hydration.list") ((str "prefix", prefix) ∷ [])) listed

  -- `read_event_line`, on the connection
  unfoldable pub read_event : Ipc l Str
  unfolding read_event_line
  read_event c =
      let (r, rest) = read_event_line l.buffered l.lossy c.incoming in
      (elim r [ ok s ↦ ok s | err k ↦ err (io k) ], record c { incoming = rest })
