-- ===== src/Kio/Render/Identity.antt =====
-- components/kio/CardRenderers.cpp, `renderIdentityTxt`: the hash and the two loops against a plain
-- description by groups.
use mathlib.Core.List.{append-nil, append_assoc}
use libre_kde.Base.{false, Text, codes, is_empty, List, [], ◌∷◌, ◌++◌, ◌≡◌, refl, ap, sym, ◌∙◌, map}
use libre_kde.Base.Groups.{
  contains, rows_of, value_or, collect_rows, first_groups, group_rows, collected_order,
  collected_rows,
}
use libre_kde.Kio.Source.{IdentityFieldView}
use libre_kde.Kio.Render.Leaves.{
  join, identity_row, group_of, group_header, emit_groups, render_identity_txt,
}

-- The rows of one group, in the order of the fields.
abbrev pub rows_in : Text → List IdentityFieldView → Text
rows_in = group_rows group_of identity_row

abbrev pub groups_in : List IdentityFieldView → List Text
groups_in = first_groups group_of identity_row []

abbrev pub section_of : List IdentityFieldView → Text → Text
section_of fields group = group_header group ++ rows_in group fields

-- The sections of the groups, each led by a blank line.
trailing : List IdentityFieldView → List Text → Text
trailing fields [] = []
trailing fields (g ∷ gs) = b'\n' ∷ (section_of fields g ++ trailing fields gs)

join-trailing :
    (fields : List IdentityFieldView) (g : Text) (gs : List Text)
    → join (codes "\n") (map (section_of fields) (g ∷ gs))
      ≡ section_of fields g ++ trailing fields gs
unfolding join trailing
join-trailing fields g [] = sym (append-nil _)
join-trailing fields g (h ∷ gs) =
    ap (λ (t : Text). section_of fields g ++ b'\n' ∷ t) (join-trailing fields h gs)

module _ (fields : List IdentityFieldView) (table : List (Text × Text))
    (complete : (g : Text) → value_or (rows_of g table) [] ≡ rows_in g fields) where
  emit-trailing :
      (gs : List Text) (out : Text)
      → is_empty out ≡ false
      → emit_groups gs table out ≡ out ++ trailing fields gs
  unfolding emit_groups trailing
  emit-trailing [] out h = sym (append-nil out)
  emit-trailing (g ∷ gs) [] h = cc
  emit-trailing (g ∷ gs) (c ∷ out) h =
      emit-trailing gs
        (((c ∷ out) ++ b'\n' ∷ []) ++ (group_header g ++ value_or (rows_of g table) [])) refl
      ∙ simp (complete g, append_assoc)

  emit-join :
      (gs : List Text) → emit_groups gs table [] ≡ join (codes "\n") (map (section_of fields) gs)
  unfolding emit_groups
  emit-join [] = unfold join in refl
  emit-join (g ∷ gs) =
      emit-trailing gs (group_header g ++ value_or (rows_of g table) []) refl
      ∙ ap (λ (t : Text). (group_header g ++ t) ++ trailing fields gs) (complete g)
      ∙ sym (join-trailing fields g gs)

-- The identity text is one section for each group, in order of first appearance, its header once and
-- below it all rows of that group in the order of the fields, with a blank line between sections.
pub render_identity_txt_sections :
    (fields : List IdentityFieldView)
    → render_identity_txt fields ≡ join (codes "\n") (map (section_of fields) (groups_in fields))
unfolding render_identity_txt rows_of contains
render_identity_txt_sections fields =
    emit-join fields (collect_rows group_of identity_row fields [] []).1
      (λ g. collected_rows group_of identity_row g fields [] [])
      (collect_rows group_of identity_row fields [] []).0
    ∙ ap (λ (gs : List Text). join (codes "\n") (map (section_of fields) gs))
        (collected_order group_of identity_row fields [] [] (λ g. refl))
