-- ===== src/Ipc/Client/Listing.antt =====
-- The listings that `IpcClient` of mount/src/ipc.rs reads.
use unidrive_mount_linux.Base.{
  ℕ, ◌<◌, ◌^◌, ◌≡◌, refl, ap, ◌∙◌, inl, inr, true, false, Option, none, some, List, [], ◌∷◌, ◌++◌,
  All, arith, contains, list_eq, nat_eq, length, or_else, Str, str,
}
use unidrive_mount_linux.Base.Exec.{Result, ok}
use unidrive_mount_linux.Ipc.{IpcError}
use unidrive_mount_linux.Base.Int.{ℤ, pos, negsuc}
use unidrive_mount_linux.Ipc.Client.{Link, Conn, decode, json, is_ok, members_of}
use unidrive_mount_linux.Ipc.Client.Exchange.{Answers, call-reply, left}
use unidrive_mount_linux.Ipc.Client.Verbs.{request, list, listed, parse_entries}
use unidrive_mount_linux.Ipc.Entry.{ListEntry, parse_list_entry, size_of}
use unidrive_mount_linux.Ipc.Inbound.{newline, max_inbound_line_bytes}
use unidrive_mount_linux.Json.{
  Value, null, bool, int, string, array, Items, nil, item, index, get, find_member, as_str, as_bool,
  as_u64, as_i64, as_array,
}

-- A number that an `i64` holds.
abbrev pub IsI64 : ℤ → Type 0
IsI64 (pos n) = n < 2 ^ 63
IsI64 (negsuc n) = n < 2 ^ 63

abbrev pub IsI64OrNone : Option ℤ → Type 0
IsI64OrNone none = Unit {0}
IsI64OrNone (some z) = IsI64 z

-- The numbers of an entry are those of its types.
abbrev pub Fits : ListEntry → Type 0
Fits e = (e.size < 2 ^ 64) × IsI64 e.mtime_ms × IsI64OrNone e.remote_modified_ms

abbrev remote_time : Option ℤ → Value
remote_time none = null
remote_time (some z) = int z

-- An entry as the daemon writes it.
unfoldable pub wire : ListEntry → Value
wire e = json (
    (str "path", string e.path)
    ∷ (str "size", int (pos e.size))
    ∷ (str "mtime_ms", int e.mtime_ms)
    ∷ (str "hydrated", bool e.hydrated)
    ∷ (str "folder", bool e.folder)
    ∷ (str "remote_modified_ms", remote_time e.remote_modified_ms)
    ∷ (str "pending_upload", bool e.pending_upload)
    ∷ [])

unfoldable pub wire_all : List ListEntry → Items
wire_all [] = nil
wire_all (e ∷ es) = item (wire e) (wire_all es)

-- A reply with entries.
unfoldable pub listing : List ListEntry → Value
listing es = json ((str "ok", bool true) ∷ (str "entries", array (wire_all es)) ∷ [])

as_i64-int : (z : ℤ) → IsI64 z → as_i64 (int z) ≡ some z
unfolding as_i64
as_i64-int (pos n) h = ground arith
as_i64-int (negsuc n) h = ground arith

as_i64-remote_time : (o : Option ℤ) → IsI64OrNone o → as_i64 (remote_time o) ≡ o
unfolding as_i64
as_i64-remote_time none h = refl
as_i64-remote_time (some z) h = as_i64-int z h

size_of-int : (n : ℕ) → n < 2 ^ 64 → size_of (int (pos n)) ≡ n
unfolding size_of as_u64 or_else
size_of-int n h = ground arith

parse_list_entry-wire : (e : ListEntry) → Fits e → parse_list_entry (wire e) ≡ some e
unfolding parse_list_entry wire json members_of index get find_member as_str as_bool nat_eq list_eq
parse_list_entry-wire e (s, m, r) =
    rw (as_i64-int e.mtime_ms m, size_of-int e.size s, as_i64-remote_time e.remote_modified_ms r)
      refl

decode-ok :
    {A : Type 0} (read : Value → Result IpcError A) (v : Value)
    → is_ok v ≡ true
    → decode read v ≡ read v
unfolding decode
decode-ok read v e = rw e refl

module _ (l : Link) where
  parse_entries-item :
      (v : Value) (vs : Items) {e : ListEntry} {es : List ListEntry}
      → parse_list_entry v ≡ some e
      → parse_entries l vs ≡ ok es
      → parse_entries l (item v vs) ≡ ok (e ∷ es)
  unfolding parse_entries
  parse_entries-item v vs p q = rw (p, q, parse_entries) refl

  parse_entries-wire_all :
      (es : List ListEntry) → All Fits es → parse_entries l (wire_all es) ≡ ok es
  unfolding wire_all
  parse_entries-wire_all [] h = unfold parse_entries in refl
  parse_entries-wire_all (e ∷ es) (h, hs) =
      parse_entries-item (wire e) (wire_all es) (parse_list_entry-wire e h)
        (parse_entries-wire_all es hs)

  listed-listing : (es : List ListEntry) → All Fits es → listed l (listing es) ≡ ok es
  unfolding listed listing json members_of index get find_member as_array nat_eq list_eq
  listed-listing es h = parse_entries-wire_all es h

  is_ok-listing : (es : List ListEntry) → is_ok (listing es) ≡ true
  unfolding is_ok listing json members_of index get find_member as_bool nat_eq list_eq
  is_ok-listing es = refl

  -- The request of `hydration.list` for a folder.
  abbrev pub list_request : Str → Value
  list_request prefix = request (str "hydration.list") ((str "prefix", prefix) ∷ [])

  -- Where a client that has read all there was sends a request that is short enough, and the daemon
  -- answers with one line, not too long, that is JSON for a listing: `list` returns the entries of
  -- the listing, in order and with every field as it was, if their numbers fit the fields' types.
  pub list-wire :
      (c : Conn l) (prefix reply rest : Str) (es : List ListEntry)
      → c.incoming ≡ []
      → contains reply newline ≡ false
      → Answers l c (list_request prefix) (reply ++ (newline ∷ rest))
      → length reply < max_inbound_line_bytes
      → l.parse reply ≡ ok (listing es)
      → All Fits es
      → list l prefix c ≡ (ok es, left l c (list_request prefix) rest)
  unfolding list
  list-wire c prefix reply rest es s n a short p h =
      elim (call-reply l c (list_request prefix) reply rest s n a (listed l)) [
        | inl (fits, good, bad) ↦
            good (listing es) p
            ∙ ap
                (λ (r : Result IpcError (List ListEntry)). (r, left l c (list_request prefix) rest))
                (decode-ok (listed l) (listing es) (is_ok-listing es) ∙ listed-listing es h)
        | inr (long, q) ↦ absurd (omega arith)
      ]
