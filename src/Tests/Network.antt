-- ===== src/Tests/Network.antt =====
-- A daemon that answers from a script, for the tests of the client.
use unidrive_mount_linux.Base.{
  ◌+◌, length, true, false, none, some, List, [], ◌∷◌, ◌++◌, ◌==◌, list_eq, nat_eq, if◌then◌else◌,
  Str, str,
}
use unidrive_mount_linux.Base.Exec.{Result, ok, err}
use unidrive_mount_linux.Ipc.{IoKind, unexpected_eof}
use unidrive_mount_linux.Ipc.Client.{Link, json}
use unidrive_mount_linux.Ipc.Client.Handshake.{Secrets}
use unidrive_mount_linux.Ipc.Inbound.{newline}
use unidrive_mount_linux.Base.Int.{negsuc}
use unidrive_mount_linux.Ipc.Client.Listing.{listing}
use unidrive_mount_linux.Ipc.Entry.{ListEntry}
use unidrive_mount_linux.IpcAuth.{Crypto, IpcAuth, client_proof, server_proof}
use unidrive_mount_linux.Json.{Value, bool, string}

-- A code of one number, from the lengths of the key and of the message.
abbrev pub plain : Crypto
plain = record { hmac = λ k m. (length k + length m) ∷ []; encode = λ s. s; decode = λ s. some s }

abbrev pub some_key : Str
some_key = str "0123456789abcdef0123456789abcdef"

abbrev pub some_proof : Str
some_proof = client_proof plain some_key (str "p1") (str "n") (str "s")

abbrev pub done : Value
done = json ((str "ok", bool true) ∷ [])

abbrev pub greeting : Value
greeting = json ((str "ok", bool true) ∷ (str "snonce", string (str "s")) ∷ [])

abbrev pub proved : Value
proved = json (
    (str "ok", bool true)
    ∷ (str "proof", string (server_proof plain some_key (str "p1") (str "n") (str "s") some_proof))
    ∷ [])

abbrev pub some_entry : ListEntry
some_entry = record {
  path = str "/a";
  size = 5;
  mtime_ms = negsuc 0;
  hydrated = true;
  folder = false;
  remote_modified_ms = none;
  pending_upload = true;
}

abbrev pub read_json : Str → Result Str Value
read_json s =
    if s == str "g"
    then ok greeting
    else if s == str "l"
    then ok (listing (some_entry ∷ []))
    else if s == str "p"
    then ok proved
    else if s == str "d"
    then ok done
    else err (str "no JSON")

-- What is still to be sent: the bytes that answer each request. An empty script is a daemon that
-- ends the connection.
abbrev pub next : List Str → Result IoKind Str × List Str
next [] = (err unexpected_eof, [])
next (s ∷ script) = (ok s, script)

abbrev pub some_link : Link
some_link = record {
  World = List Str;
  dial = λ w. (ok tt, w);
  write_all = λ s w. (ok tt, w);
  flush = next;
  shutdown = λ w. w;
  buffered = λ s. 2;
  print = λ v. str "?";
  parse = read_json;
  lossy = λ s. s;
}

abbrev pub some_secrets : Secrets (List Str)
some_secrets = record {
  crypto = plain;
  random = λ w. (ok (str "n"), w);
  read_file = λ p w. some (some_key ++ (newline ∷ []));
}

abbrev pub with_token : IpcAuth
with_token = record { token_file = some (str "/t"); profile = str "p1" }

abbrev pub without_token : IpcAuth
without_token = record { token_file = none; profile = str "p1" }

abbrev pub as_line : Str → Str
as_line s = s ++ (newline ∷ [])

-- A daemon that answers every request with success.
abbrev pub steady_link : Link
steady_link = record some_link { flush = λ w. (ok (as_line (str "d")), w) }
