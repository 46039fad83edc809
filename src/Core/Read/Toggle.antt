-- ===== src/Core/Read/Toggle.antt =====
-- toggleFacetValue of packages/core/src/read.ts: what one and two toggles do to a selection.
use keco.Prelude.{
  ◌≡◌, refl, inl, inr, true, false, not, ◌&&◌, ◌≢◌, Bool-cases, List-cases, some, List, [], ◌∷◌,
  ◌++◌, arith, if◌then◌else◌,
}
use keco.Prelude.Text.{Text, text_eq, text_eq_iff}
use keco.Prelude.Maps.{get, get-put, get-erase, text_key}
use keco.Core.Read.{FacetSelection, selected, is_empty, includes}
use keco.Core.Read.Urls.{others, toggled, toggle_facet_value}

includes-others :
    (ws : List Text) (v w : Text)
    → includes (others ws v) w ≡ (if text_eq v w then false else includes ws w)
unfolding includes others
includes-others [] v w = ground arith
includes-others (u ∷ us) v w =
    ground (arith, includes-others us v w, text_eq_iff u v, text_eq_iff u w, text_eq_iff v w)

pub includes-snoc :
    (ws : List Text) (v w : Text)
    → includes (ws ++ v ∷ []) w ≡ (if text_eq v w then true else includes ws w)
unfolding includes
includes-snoc [] v w = ground arith
includes-snoc (u ∷ us) v w = ground (arith, includes-snoc us v w)

-- A toggle changes the membership of its value, and of no other.
pub includes-toggled :
    (ws : List Text) (v w : Text)
    → includes (toggled ws v) w ≡ (if text_eq v w then not (includes ws v) else includes ws w)
unfolding toggled
includes-toggled ws v w = ground (arith, includes-others ws v w, includes-snoc ws v w)

selected-empty : (ws : List Text) → is_empty ws ≡ true → ws ≡ []
selected-empty [] h = refl
selected-empty (w ∷ ws) h = cc

-- The values of a family after a toggle, whether or not its entry was dropped.
pub selected-toggle :
    (s : FacetSelection) (id v k : Text)
    → selected (toggle_facet_value s id v) k
      ≡ (if text_eq id k then toggled (selected s id) v else selected s k)
unfolding toggle_facet_value selected
selected-toggle s id v k =
    let next = toggled (selected s id) v in
    elim (Bool-cases (is_empty next)) [
      | inl e ↦ ground (arith, e, selected-empty next e, get-erase s id k)
      | inr e ↦ ground (arith, e, get-put s id k next)
    ]

includes-selected-toggle :
    (s : FacetSelection) (id v k w : Text)
    → includes (selected (toggle_facet_value s id v) k) w ≡ (
        if text_eq id k && text_eq v w
        then not (includes (selected s id) v)
        else includes (selected s k) w)
includes-selected-toggle s id v k w =
    ground (arith, selected-toggle s id v k, includes-toggled (selected s id) v w, text_eq_iff id k)

get-toggle-nonempty :
    (s : FacetSelection) (id v : Text) → get (toggle_facet_value s id v) id ≢ some []
unfolding toggle_facet_value
get-toggle-nonempty s id v =
    let next = toggled (selected s id) v in
    elim (List-cases next) [
      | inl e ↦ ground (arith, e, get-erase s id id, text_eq_iff id id)
      | inr (w, ws, e) ↦ ground (arith, e, get-put s id id next, text_eq_iff id id)
    ]

-- A toggle changes whether its value is selected in its family, and no other value of any family;
-- the entry of a family is dropped with its last value; and the same toggle again selects what
-- was selected before.
pub toggle_facet_value_lem :
    (s : FacetSelection) (id v : Text)
    → ((k w : Text)
        → includes (selected (toggle_facet_value s id v) k) w ≡ (
            if text_eq id k && text_eq v w
            then not (includes (selected s id) v)
            else includes (selected s k) w))
      × (get (toggle_facet_value s id v) id ≢ some [])
      × ((k w : Text)
          → includes (selected (toggle_facet_value (toggle_facet_value s id v) id v) k) w
            ≡ includes (selected s k) w)
toggle_facet_value_lem s id v = (
  includes-selected-toggle s id v,
  get-toggle-nonempty s id v,
  λ k w.
      let once = toggle_facet_value s id v in
      ground (
        arith,
        includes-selected-toggle once id v k w,
        includes-selected-toggle s id v k w,
        includes-selected-toggle s id v id v,
        text_eq_iff id k,
        text_eq_iff v w,
        text_eq_iff id id,
        text_eq_iff v v,
      ),
)
