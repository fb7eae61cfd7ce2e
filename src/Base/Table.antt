-- ===== src/Base/Table.antt =====
-- A database table as the list of its rows, with the conditional UPDATE and the one-row SELECT.
use Prim.Native.Nat.{ℕ, suc}
use mathlib.Core.Path.{◌≡◌}
use mathlib.Core.Bool.{Bool, true}
use mathlib.Core.Option.{Option, none, some}
use mathlib.Core.List.{List, [], ◌∷◌}
use native.Mathlib.Omega.{arith}
use odatano.Base.Bools.{if◌then◌else◌}
use odatano.Base.Lists.{All}

module _ {ℓ} {R : Type ℓ} where
  -- `SELECT.one.from(T).where(w)`
  abbrev pub select_one : (R → Bool) → List R → Option R
  select_one w [] = none
  select_one w (r ∷ rs) = if w r then some r else select_one w rs

  -- `UPDATE.entity(T).set(f).where(w)`
  abbrev pub update_where : (R → Bool) → (R → R) → List R → List R
  update_where w f [] = []
  update_where w f (r ∷ rs) = (if w r then f r else r) ∷ update_where w f rs

  -- the number of affected rows
  abbrev pub affected : (R → Bool) → List R → ℕ
  affected w [] = 0
  affected w (r ∷ rs) = if w r then suc (affected w rs) else affected w rs

  -- What every changed row and every unchanged row keeps holds of the whole table.
  pub All-update_where {κ} :
      (P : R → Type κ) (w : R → Bool) (f : R → R)
      → ((r : R) → w r ≡ true → P r → P (f r))
      → (rs : List R) → All P rs
      → All P (update_where w f rs)
  All-update_where P w f step [] h = tt
  All-update_where P w f step (r ∷ rs) h =
      ground (arith, step r, h, All-update_where P w f step rs h.1)
