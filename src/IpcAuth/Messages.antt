-- ===== src/IpcAuth/Messages.antt =====
-- What the proofs of mount/src/ipc_auth.rs are about: the messages are read in one way only.
use unidrive_mount_linux.Base.{
  ℕ, ◌≡◌, refl, ◌≢◌, ap, false, some, [], ◌∷◌, ◌++◌, append_assoc, arith, contains, list_eq, nat_eq,
  length, drop, Str, eq_refl, ◌==◌,
}
use unidrive_mount_linux.Base.Decimal.{decimal}
use unidrive_mount_linux.Base.Decimal.Laws.{contains-decimal, decimal-injective}
use unidrive_mount_linux.IpcAuth.{
  Crypto, bar, session_part, client_message, server_message, server_proof, verify_server_proof,
}

-- A text is split at the first occurrence of a separator in one way only.
split_unique :
    (c : ℕ) (a b r s : Str)
    → contains a c ≡ false
    → contains b c ≡ false
    → a ++ (c ∷ r) ≡ b ++ (c ∷ s)
    → (a ≡ b) × (r ≡ s)
split_unique c [] [] r s h k e = (refl, cc)
split_unique c [] (y ∷ b) r s h k e = absurd (ground (arith, eq_refl c))
split_unique c (x ∷ a) [] r s h k e = absurd (ground (arith, eq_refl c))
split_unique c (x ∷ a) (y ∷ b) r s h k e =
    let (p, q) = split_unique c a b r s (ground arith) (ground arith) (cc) in (cc, q)

-- Prefixes of one length are told apart.
append_unique : (a b r s : Str) → length a ≡ length b → a ++ r ≡ b ++ s → (a ≡ b) × (r ≡ s)
append_unique [] [] r s h e = (refl, e)
append_unique [] (y ∷ b) r s h e = absurd (omega arith)
append_unique (x ∷ a) [] r s h e = absurd (omega arith)
append_unique (x ∷ a) (y ∷ b) r s h e =
    let (p, q) = append_unique a b r s (omega arith) (cc) in (cc, q)

colon_free : (n : ℕ) → contains (decimal n) b':' ≡ false
colon_free n = contains-decimal b':' n refl

session_part_unique :
    (p p' n n' s s' : Str)
    → contains n bar ≡ false
    → contains n' bar ≡ false
    → session_part p n s ≡ session_part p' n' s'
    → (p ≡ p') × (n ≡ n') × (s ≡ s')
unfolding session_part
session_part_unique p p' n n' s s' h k e =
    let (d, q) =
      split_unique b':' (decimal (length p)) (decimal (length p')) _ _ (colon_free (length p))
        (colon_free (length p')) e in
    let (a, t) = append_unique p p' _ _ (decimal-injective (length p) (length p') d) q in
    let (b, c) = split_unique bar n n' s s' h k (cc) in (a, b, c)

append_session_part : (p n s t : Str) → session_part p n s ++ t ≡ session_part p n (s ++ t)
unfolding session_part
append_session_part p n s t = simp append_assoc

-- The first letter after the version in a text: of `client` or of `server`.
role : Str → ℕ
role t = elim (drop 16 t) [ [] ↦ 0 | c ∷ rest ↦ c ]

roles_differ :
    (p n s p' n' s' c' : Str) → role (client_message p n s) ≢ role (server_message p' n' s' c')
unfolding role client_message server_message
roles_differ p n s p' n' s' c' e = omega arith

-- The two proofs of a handshake are over texts that name the profile and the nonces in one way only:
-- where no nonce holds a bar, a client's text gives back the profile and both nonces, a server's also
-- the client's proof, and no client's text is a server's.
pub messages_unambiguous :
    (p p' n n' s s' c c' : Str)
    → contains n bar ≡ false
    → contains n' bar ≡ false
    → contains s bar ≡ false
    → contains s' bar ≡ false
    → (client_message p n s ≡ client_message p' n' s' → (p ≡ p') × (n ≡ n') × (s ≡ s'))
      × (server_message p n s c ≡ server_message p' n' s' c'
          → (p ≡ p') × (n ≡ n') × (s ≡ s') × (c ≡ c'))
      × (client_message p n s ≢ server_message p' n' s' c')
unfolding client_message server_message
messages_unambiguous p p' n n' s s' c c' h h' k k' = (
  λ e. session_part_unique p p' n n' s s' h h' (cc),
  λ e.
      let (a, b, t) =
        session_part_unique p p' n n' (s ++ (bar ∷ c)) (s' ++ (bar ∷ c')) h h'
          (cc (append_session_part p n s (bar ∷ c), append_session_part p' n' s' (bar ∷ c'))) in
      let (d, f) = split_unique bar s s' c c' k k' t in (a, b, d, f),
  λ e. absurd (roles_differ p n s p' n' s' c' (ap role e)),
)

-- Where the encoding is decoded as it was, the daemon's own proof is accepted, and a proof of the
-- daemon for another session only if its code for this one is the same.
pub verify_server_proof-server_proof :
    (y : Crypto)
    → ((x : Str) → y.decode (y.encode x) ≡ some x)
    → (k p n s c k' p' n' s' c' : Str)
    → verify_server_proof y k p n s c (server_proof y k' p' n' s' c')
      ≡ (y.hmac k (server_message p n s c) == y.hmac k' (server_message p' n' s' c'))
unfolding verify_server_proof server_proof
verify_server_proof-server_proof y d k p n s c k' p' n' s' c' =
    rw (d (y.hmac k' (server_message p' n' s' c')), verify_server_proof) refl
