-- ===== src/Common/Histories.antt =====
-- Histories of a step relation.
pub data Steps {ℓ κ} {S : Type ℓ} (R : S → S → Type κ) (s : S) : S → Type (ℓ ⊔ κ) where
  here : Steps R s s
  step : {t u : S} → Steps R s t → R t u → Steps R s u

module _ {ℓ κ} {S : Type ℓ} {R : S → S → Type κ} where
  pub Steps-trans : {s t u : S} → Steps R s t → Steps R t u → Steps R s u
  Steps-trans r here = r
  Steps-trans r (step r' st) = step (Steps-trans r r') st

  -- What one step keeps, a history keeps.
  pub Steps-keep {υ} :
      (P : S → Type υ) (keep : (s t : S) → P s → R s t → P t) {s t : S} → P s → Steps R s t → P t
  Steps-keep P keep h here = h
  Steps-keep P keep {t = u} h (step {t} r st) = keep t u (Steps-keep P keep h r) st
