-- ===== src/ViewRefresh/Changes.antt =====
-- What the events that mount/src/view_refresh.rs hands on do to the cached view.

use unidrive_mount_linux.Base.{
  ℕ, ◌≡◌, refl, ap, ◌∙◌, ◌↔◌, inl, inr, Bool, true, false, Option, none, some, List, [], ◌∷◌, ◌++◌,
  map, append_assoc, append-nil, arith, list_eq, nat_eq, All, Option-cases, Str,
}
use unidrive_mount_linux.Attr.{CachedAttr}
use unidrive_mount_linux.Base.Dict.{lookup}
use unidrive_mount_linux.Fs.{Fs}
use unidrive_mount_linux.Fs.View.{apply, kept_inodes}
use unidrive_mount_linux.Fs.View.Laws.{
  known_of_apply, lookup-apply_all, lookup-apply_paths, apply-all_exact, HasUnsent,
}
use unidrive_mount_linux.Ipc.Client.{Link}
use unidrive_mount_linux.Ipc.Client.Handshake.{Secrets}
use unidrive_mount_linux.IpcAuth.{IpcAuth}
use unidrive_mount_linux.Json.{Value}
use unidrive_mount_linux.Subscribe.{
  SubscriptionEvent, line, gap, Invalidation, all, paths, invalidation_of,
}
use unidrive_mount_linux.Subscribe.Loop.Streams.{feed, narrate, streams, run_subscription-feed}
use unidrive_mount_linux.ViewRefresh.{send_change, apply_pending, parse_event, keep_view_fresh}

kept_inodes-apply :
    {F : Type 0} (c : Invalidation) (fs : Fs F) → kept_inodes (apply c fs) ≡ kept_inodes fs
unfolding apply kept_inodes
kept_inodes-apply all fs = refl
kept_inodes-apply (paths roots) fs = refl

pub open_handles-apply :
    {F : Type 0} (c : Invalidation) (fs : Fs F) → (apply c fs).open_handles ≡ fs.open_handles
unfolding apply
open_handles-apply all fs = refl
open_handles-apply (paths roots) fs = refl

pub paths-apply : {F : Type 0} (c : Invalidation) (fs : Fs F) → (apply c fs).paths ≡ fs.paths
unfolding apply
paths-apply all fs = refl
paths-apply (paths roots) fs = refl

-- What an invalidation does to an inode that another one has kept is what it does by itself.
lookup-apply-apply :
    {F : Type 0} (c d : Invalidation) (fs : Fs F) (i : ℕ)
    → lookup i (apply c fs).attrs ≡ lookup i fs.attrs
    → lookup i (apply d (apply c fs)).attrs ≡ lookup i (apply d fs).attrs
lookup-apply-apply c all fs i e =
    ground (arith, lookup-apply_all (apply c fs) i, lookup-apply_all fs i, kept_inodes-apply c fs)
lookup-apply-apply c (paths roots) fs i e = ground (
  arith,
  lookup-apply_paths (apply c fs) roots i,
  lookup-apply_paths fs roots i,
  kept_inodes-apply c fs,
  paths-apply c fs,
)

All-imp :
    {A : Type 0} (P Q : A → Type 0) (xs : List A) → ((x : A) → P x → Q x) → All P xs → All Q xs
All-imp P Q [] f h = tt
All-imp P Q (x ∷ xs) f h = (f x h.0, All-imp P Q xs f h.1)

module _ {F : Type 0} (i : ℕ) (a : CachedAttr) where
  -- The invalidation keeps what is cached of the inode.
  abbrev pub Survives : Fs F → Invalidation → Type 0
  Survives fs c = lookup i (apply c fs).attrs ≡ some a

  -- However many changes are pending, and in whatever order they were sent, what is cached of an
  -- inode is there after all of them were applied exactly if it was there before and each of them
  -- by itself would leave it.
  pub apply_pending_exact :
      (pending : List Invalidation) (fs : Fs F)
      → (lookup i (apply_pending pending fs).attrs ≡ some a)
        ↔ ((lookup i fs.attrs ≡ some a) × All (Survives fs) pending)
  unfolding apply_pending
  apply_pending_exact [] fs = (λ e. (e, tt), λ (e, h). e)
  apply_pending_exact (c ∷ pending) fs =
      let ih = apply_pending_exact pending (apply c fs) in
      (
        λ e.
            let (here, rest) = ih.0 e in
            let before = known_of_apply c fs i here in
            (
              before,
              (
                here,
                All-imp _ _ pending (λ d h. (let same = lookup-apply-apply c d fs i (cc) in cc))
                    rest,
              ),
            ),
        λ (before, (here, rest)). ih.1 (
          here,
          All-imp _ _ pending (λ d h. (let same = lookup-apply-apply c d fs i (cc) in cc)) rest,
        ),
      )

-- The invalidations that events call for, in order.
unfoldable pub called_for : (Str → Option Value) → List SubscriptionEvent → List Invalidation
called_for parse [] = []
called_for parse (ev ∷ evs) =
    let rest = called_for parse evs in
    elim (invalidation_of parse ev) [ none ↦ rest | some change ↦ change ∷ rest ]

called_for-append :
    (parse : Str → Option Value) (es ds : List SubscriptionEvent)
    → called_for parse (es ++ ds) ≡ called_for parse es ++ called_for parse ds
unfolding called_for
called_for-append parse [] ds = refl
called_for-append parse (e ∷ es) ds = elim (Option-cases (invalidation_of parse e)) [
  | inl n ↦ rw (n, called_for) (called_for-append parse es ds)
  | inr (c, r) ↦ rw (r, called_for) (ap (λ t. c ∷ t) (called_for-append parse es ds))
]

send_change-changes :
    (parse : Str → Option Value) (e : SubscriptionEvent) (es : List SubscriptionEvent)
    (sent : List Invalidation)
    → (send_change parse e sent).1 ++ called_for parse es ≡ sent ++ called_for parse (e ∷ es)
unfolding send_change called_for
send_change-changes parse e es sent = elim (Option-cases (invalidation_of parse e)) [
  | inl n ↦ rw (n, send_change, called_for) refl
  | inr (c, r) ↦ rw (r, send_change, called_for) (append_assoc sent (c ∷ []) (called_for parse es))
]

feed-send_change :
    (parse : Str → Option Value) (es : List SubscriptionEvent) (sent : List Invalidation)
    → feed (send_change parse) es sent ≡ (true, sent ++ called_for parse es)
unfolding feed send_change called_for
feed-send_change parse [] sent = rw (append-nil sent) refl
feed-send_change parse (e ∷ es) sent =
    feed-send_change parse es (send_change parse e sent).1
    ∙ ap (λ (t : List Invalidation). (true, t)) (send_change-changes parse e es sent)

All-append_right : {A : Type 0} (P : A → Type 0) (xs ys : List A) → All P (xs ++ ys) → All P ys
All-append_right P [] ys h = h
All-append_right P (x ∷ xs) ys h = All-append_right P xs ys h.1

module _ (l : Link) (x : Secrets l.World) (auth : IpcAuth) (sleep : l.World → l.World) where
  -- In any number of rounds the changes that are sent are those that the events of the streams call
  -- for, in order.
  pub keep_view_fresh-changes :
      (f : ℕ) (w : l.World)
      → (keep_view_fresh l x auth sleep f w).1
        ≡ called_for (parse_event l x auth sleep) (narrate false (streams l x auth sleep f w))
  unfolding keep_view_fresh
  keep_view_fresh-changes f w =
      let parse = parse_event l x auth sleep in
      run_subscription-feed l x auth sleep (send_change parse) f false [] w
      ∙ ap (λ (r : Bool × List Invalidation). r.1)
          (feed-send_change parse (narrate false (streams l x auth sleep f w)) [])

  -- Once a stream was established after another one, whatever events were lost in between, nothing
  -- is cached when the changes sent were applied, but what was cached before of the inodes that the
  -- paths of open handles with unsent local writes have.
  pub keep_view_fresh-gap :
      {F : Type 0} (f : ℕ) (w : l.World) (first next : List Str) (rest : List (List Str))
      → streams l x auth sleep f w ≡ first ∷ next ∷ rest
      → (fs : Fs F) (i : ℕ) (a : CachedAttr)
      → lookup i (apply_pending (keep_view_fresh l x auth sleep f w).1 fs).attrs ≡ some a
      → (lookup i fs.attrs ≡ some a) × HasUnsent fs i
  unfolding narrate called_for invalidation_of
  keep_view_fresh-gap f w first next rest e fs i a h =
      let parse = parse_event l x auth sleep in
      let after = map line next ++ narrate true rest in
      let sent : (keep_view_fresh l x auth sleep f w).1
          ≡ called_for parse (map line first) ++ (all ∷ called_for parse after) =
        keep_view_fresh-changes f w
        ∙ ap (λ s. called_for parse (narrate false s)) e
        ∙ called_for-append parse (map line first) (gap ∷ after) in
      let survived = ((apply_pending_exact i a _ fs).0 (rw sent at h)).1 in
      let kept =
        All-append_right (Survives i a fs) (called_for parse (map line first)) _ survived in
      (apply-all_exact fs i a).0 kept.0
