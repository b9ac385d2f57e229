-- ===== src/Client/Registry/Lookup.antt =====
-- The handler registry is a map from event types to handlers.
use cairndb.Prelude.{
  Text, text_discrete, ite, ◌≡◌, refl, sym, ap, subst, inl, inr, Option, none, some, Option-cases,
  List, [], ◌∷◌, ◌++◌, arith,
}
use cairndb.Storage.Effects.{Result, ok, raised, value_error, handler_not_found}
use cairndb.Client.Registry.{look_up, register, discard, unregister}

module _ {Handler : Type 0} where
  look_up-append :
      (u t : Text) (h : Handler) (hs : List (Text × Handler))
      → look_up t hs ≡ none
      → look_up u (hs ++ ((t, h) ∷ [])) ≡ ite (text_discrete t u) (some h) (look_up u hs)
  unfolding look_up
  look_up-append u t h [] e = refl
  look_up-append u t h ((v, g) ∷ hs) e = ground (arith, look_up-append u t h hs)

  look_up-discard :
      (u t : Text) (hs : List (Text × Handler))
      → look_up u (discard t hs) ≡ ite (text_discrete t u) none (look_up u hs)
  unfolding look_up discard
  look_up-discard u t [] = ground arith
  look_up-discard u t ((v, g) ∷ hs) = ground (arith, look_up-discard u t hs)

  -- What a registration leaves, as seen by a look-up of `u`.
  abbrev pub Registered :
      Text → Handler → List (Text × Handler) → Text → Result (List (Text × Handler)) → Type 0
  Registered t h hs u (raised e) = (e ≡ value_error) × ((g : Handler) × (look_up t hs ≡ some g))
  Registered t h hs u (ok hs') =
      (look_up t hs ≡ none) × (look_up u hs' ≡ ite (text_discrete t u) (some h) (look_up u hs))

  abbrev pub Unregistered :
      Text → List (Text × Handler) → Text → Result (List (Text × Handler)) → Type 0
  Unregistered t hs u (raised e) = (e ≡ handler_not_found) × (look_up t hs ≡ none)
  Unregistered t hs u (ok hs') =
      ((g : Handler) × (look_up t hs ≡ some g))
      × (look_up u hs' ≡ ite (text_discrete t u) none (look_up u hs))

  -- Registering a handler is refused when the event type has one, and else sets it and no other;
  -- unregistering is refused when the event type has none, and else removes it and no other.
  pub registry-look_up :
      (t u : Text) (h : Handler) (hs : List (Text × Handler))
      → Registered t h hs u (register t h hs) × Unregistered t hs u (unregister t hs)
  unfolding register unregister
  registry-look_up t u h hs = elim (Option-cases (look_up t hs)) [
    | inl e ↦ (
      subst (Registered t h hs u) (sym (ap (register_by t h hs) e)) (e, look_up-append u t h hs e),
      subst (Unregistered t hs u) (sym (ap (unregister_by t hs) e)) (refl, e),
    )
    | inr (g, e) ↦ (
      subst (Registered t h hs u) (sym (ap (register_by t h hs) e)) (refl, (g, e)),
      subst (Unregistered t hs u) (sym (ap (unregister_by t hs) e))
          ((g, e), look_up-discard u t hs),
    )
  ]
    where
      register_by :
          Text → Handler → List (Text × Handler) → Option Handler → Result (List (Text × Handler))
      register_by t h hs o = elim o [
        | some g ↦ raised value_error
        | none ↦ ok (hs ++ ((t, h) ∷ []))
      ]

      unregister_by : Text → List (Text × Handler) → Option Handler → Result (List (Text × Handler))
      unregister_by t hs o = elim o [ some h ↦ ok (discard t hs) | none ↦ raised handler_not_found ]
