-- ===== src/Engine/Lease/Protocol.antt =====
-- What may happen to a lease document: its epoch grows, and within an epoch the holder stays or is
-- released, while the state moves within a bound `G` that the cooperating programs agree on.
use cairndb.Prelude.{◌<◌, Text, ◌≡◌, refl, ◌∙◌, ◌⊎◌, inl, inr, Option, none, some, arith}
use cairndb.Core.Value.{Value, Codec}
use cairndb.Storage.Interface.{BlobStorage}
use cairndb.Storage.Rely.{Rely}
use cairndb.Engine.LeaseDoc.{LeaseDoc}
use cairndb.Engine.Lease.{Lease}
use cairndb.Engine.Lease.Handle.{view}

module _ (G : Rely (Option Value)) where
  abbrev pub Evolves : Option LeaseDoc → Option LeaseDoc → Type 0
  Evolves none y = Unit {0}
  Evolves (some d) none = ⊥
  Evolves (some d) (some d') =
      (d.epoch < d'.epoch)
      ⊎ ((d'.epoch ≡ d.epoch)
          × ((d'.holder ≡ d.holder) ⊎ (d'.holder ≡ none))
          × G.rel d.state d'.state)

  pub Evolves-refl : (x : Option LeaseDoc) → Evolves x x
  Evolves-refl none = tt
  Evolves-refl (some d) = inr (refl, inl refl, G.here d.state)

  pub Evolves-trans : (x y z : Option LeaseDoc) → Evolves x y → Evolves y z → Evolves x z
  Evolves-trans none y z f g = tt
  Evolves-trans (some d) none z f g = absurd f
  Evolves-trans (some d) (some e) none f g = absurd g
  Evolves-trans (some d) (some e) (some h) (inl lt) (inl lt') = inl (omega arith)
  Evolves-trans (some d) (some e) (some h) (inl lt) (inr (same, _, _)) = inl (omega arith)
  Evolves-trans (some d) (some e) (some h) (inr (same, _, _)) (inl lt) = inl (omega arith)
  Evolves-trans (some d) (some e) (some h) (inr (p, q, r)) (inr (p', q', r')) =
      inr (p' ∙ p, ground arith, G.trans r r')

  -- The epoch of a document never falls, and in one epoch there is one holder.
  module _ (b : BlobStorage) (c : Codec) where
    abbrev pub protocol : Text → Rely b.Store
    protocol key = record {
      rel = λ s t. Evolves (view b c key s) (view b c key t);
      here = λ s. Evolves-refl (view b c key s);
      trans =
          λ {s} {t} {u} f g. Evolves-trans (view b c key s) (view b c key t) (view b c key u) f g;
    }

-- The document that a handle last wrote or read.
abbrev pub doc_of : Lease → LeaseDoc
doc_of l = record {
  epoch = l.epoch;
  holder = l.holder;
  deadline_at = l.deadline_at;
  state = some l.state;
}
