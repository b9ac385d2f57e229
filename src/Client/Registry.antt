-- ===== src/Client/Registry.antt =====
-- src/cairndb/client/registry.py: the handlers by event type, in the order of their registration.
pub mod Lookup
use cairndb.Prelude.{
  Text, text_discrete, ite, ℕ, Option, none, some, Bool, true, false, List, [], ◌∷◌, ◌++◌, map,
  length,
}
use cairndb.Storage.Effects.{Result, ok, raised, value_error, handler_not_found}

module _ {Handler : Type 0} where
  -- self._handlers.get(event_type)
  unfoldable pub look_up : Text → List (Text × Handler) → Option Handler
  look_up t [] = none
  look_up t ((u, h) ∷ hs) = ite (text_discrete u t) (some h) (look_up t hs)

  unfoldable pub register : Text → Handler → List (Text × Handler) → Result (List (Text × Handler))
  register t h hs = elim (look_up t hs) [
    | some g ↦ raised value_error
    | none ↦ ok (hs ++ ((t, h) ∷ []))
  ]

  unfoldable pub get_handler : Text → List (Text × Handler) → Result Handler
  get_handler t hs = elim (look_up t hs) [ some h ↦ ok h | none ↦ raised handler_not_found ]

  unfoldable pub has_handler : Text → List (Text × Handler) → Bool
  has_handler t hs = elim (look_up t hs) [ some h ↦ true | none ↦ false ]

  -- del self._handlers[event_type]
  unfoldable pub discard : Text → List (Text × Handler) → List (Text × Handler)
  discard t [] = []
  discard t ((u, h) ∷ hs) = let rest = discard t hs in ite (text_discrete u t) rest ((u, h) ∷ rest)

  unfoldable pub unregister : Text → List (Text × Handler) → Result (List (Text × Handler))
  unregister t hs = elim (look_up t hs) [
    | some h ↦ ok (discard t hs)
    | none ↦ raised handler_not_found
  ]

  unfoldable pub list_handlers : List (Text × Handler) → List Text
  list_handlers [] = []
  list_handlers ((t, h) ∷ hs) = t ∷ list_handlers hs

  unfoldable pub clear : List (Text × Handler) → List (Text × Handler)
  clear hs = []
