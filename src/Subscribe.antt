-- ===== src/Subscribe.antt =====
-- mount/src/subscribe.rs: what the events of the daemon mean for the cached view. `parse` is
-- `serde_json::from_str`, `none` for a line that is no JSON.
pub mod Loop
use unidrive_mount_linux.Base.{
  ◌&&◌, not, Option, none, some, List, [], ◌∷◌, ◌==◌, list_eq, nat_eq, is_empty, if◌then◌else◌, Str,
  str, false,
}
use unidrive_mount_linux.Json.{Value, Items, nil, item, as_str, index, as_bool, as_array, unwrap_or}

pub data SubscriptionEvent : Type 0 where
  line : Str → SubscriptionEvent
  gap : SubscriptionEvent

pub data Invalidation : Type 0 where
  paths : List Str → Invalidation
  all : Invalidation

-- A listed path that narrows an invalidation: a text that is not the root.
unfoldable pub narrow_path : Value → Option Str
unfolding as_str
narrow_path v = elim (as_str v) [
  | none ↦ none
  | some p ↦ if not (is_empty p) && not (p == str "/") then some p else none
]

-- The loop over `paths`: all of them, or `none` at the first that narrows nothing.
unfoldable pub narrow_paths : Items → Option (List Str)
unfolding narrow_path
narrow_paths nil = some []
narrow_paths (item v vs) =
    let rest = narrow_paths vs in
    elim (narrow_path v) [
      | none ↦ none
      | some p ↦ elim rest [ none ↦ none | some ps ↦ some (p ∷ ps) ]
    ]

-- What `view.invalidated` calls for.
unfoldable pub view_invalidated : Value → Invalidation
unfolding index as_bool as_array narrow_paths
view_invalidated event =
    if unwrap_or (as_bool (index event (str "full"))) false
    then all
    else elim (as_array (index event (str "paths"))) [
      | none ↦ all
      | some listed ↦ elim (narrow_paths listed) [ none ↦ all | some ps ↦ paths ps ]
    ]

-- What a parsed event calls for.
unfoldable pub event_invalidation : Value → Option Invalidation
unfolding index as_str view_invalidated
event_invalidation event = elim (as_str (index event (str "event"))) [
  | none ↦ none
  | some name ↦
      if name == str "lost"
      then some all
      else if name == str "view.invalidated"
      then some (view_invalidated event)
      else none
]

-- `invalidation_of`
unfoldable pub invalidation_of : (Str → Option Value) → SubscriptionEvent → Option Invalidation
unfolding event_invalidation
invalidation_of parse gap = some all
invalidation_of parse (line l) = elim (parse l) [ none ↦ none | some v ↦ event_invalidation v ]
