-- ===== src/Missions/Templates/Instantiation.antt =====
-- The results of instantiating a template: which names are reported, and what a mission is free of.
use pawaacdrone_fleet_operat.Common.{
  ◌≡◌, ◌≢◌, ◌∙◌, refl, sym, ap, Bool, true, false, not, ◌&&◌, ◌||◌, Bool-cases, inl, inr, List, [],
  ◌∷◌, ◌++◌, Option, none, some, filter, Str, ◌===◌, ===_iff, Number, All, arith,
}
use pawaacdrone_fleet_operat.Missions.Templates.{
  TemplateValue, MissionTemplate, InstantiationResult, placeholders_in, placeholders_in_value,
  values_of, distinct, insert_text, sort_texts, flat_map, collect_placeholders, required_parameters,
  is_missing, unresolved_in_value, missing_in, unresolved_in, resolved_body, instantiate_template,
  substitute_string,
}

unfoldable pub listed : Str → List Str → Bool
listed n [] = false
listed n (t ∷ texts) = t === n || listed n texts

listed_append : (n : Str) (xs ys : List Str) → listed n (xs ++ ys) ≡ (listed n xs || listed n ys)
unfolding listed
listed_append n [] ys = refl
listed_append n (x ∷ xs) ys = ground (arith, listed_append n xs ys)

listed_filter :
    (p : Str → Bool) (n : Str) (xs : List Str) → listed n (filter p xs) ≡ (p n && listed n xs)
unfolding listed
listed_filter p n [] = ground arith
listed_filter p n (x ∷ xs) = elim (Bool-cases (x === n)) [
  | inl e ↦ ground (arith, listed_filter p n xs, e, ap p ((===_iff x n).0 e))
  | inr e ↦ ground (arith, listed_filter p n xs, e)
]

listed_distinct : (n : Str) (xs : List Str) → listed n (distinct xs) ≡ listed n xs
unfolding listed distinct
listed_distinct n [] = refl
listed_distinct n (x ∷ xs) = ground (
  arith,
  listed_distinct n xs,
  listed_filter (λ t. not (t === x)) n (distinct xs),
  ===_iff x n,
  ===_iff n x,
)

listed_insert : (n s : Str) (xs : List Str) → listed n (insert_text s xs) ≡ (s === n || listed n xs)
unfolding listed insert_text
listed_insert n s [] = refl
listed_insert n s (x ∷ xs) = ground (arith, listed_insert n s xs)

listed_sort : (n : Str) (xs : List Str) → listed n (sort_texts xs) ≡ listed n xs
unfolding listed sort_texts
listed_sort n [] = refl
listed_sort n (x ∷ xs) =
    listed_insert n x (sort_texts xs) ∙ ap (λ b. x === n || b) (listed_sort n xs)

-- The text is declared as a parameter, or is a placeholder of the name or of a waypoint.
abbrev pub is_required : Str → MissionTemplate → Bool
is_required n template =
    listed n template.required_params
    || (listed n (placeholders_in template.body.name)
        || listed n (flat_map placeholders_in_value (flat_map values_of template.body.waypoints)))

required_parameters_iff :
    (n : Str) (template : MissionTemplate)
    → listed n (required_parameters template) ≡ is_required n template
unfolding required_parameters collect_placeholders
required_parameters_iff n template =
    let used = flat_map placeholders_in_value (flat_map values_of template.body.waypoints) in
    let names = placeholders_in template.body.name in
    listed_sort n _
    ∙ listed_distinct n _
    ∙ listed_append n template.required_params (distinct (names ++ used))
    ∙ ap (λ b. listed n template.required_params || b)
        (listed_distinct n (names ++ used) ∙ listed_append n names used)

append_empty : (xs ys : List Str) → xs ++ ys ≡ [] → (xs ≡ []) × (ys ≡ [])
append_empty [] ys e = (refl, e)
append_empty (x ∷ xs) ys e = cc

flat_map_empty :
    (f : TemplateValue → List Str) (vs : List TemplateValue)
    → flat_map f vs ≡ []
    → All (λ v. f v ≡ []) vs
flat_map_empty f [] e = tt
flat_map_empty f (v ∷ vs) e =
    let (h, hs) = append_empty (f v) (flat_map f vs) e in (h, flat_map_empty f vs hs)

distinct_empty : (xs : List Str) → distinct xs ≡ [] → xs ≡ []
unfolding distinct
distinct_empty [] e = refl
distinct_empty (x ∷ xs) e = cc

cons_some : (x : Str) (xs : List Str) → (x ∷ xs) ≢ []
cons_some x xs e = cc

insert_some : (s : Str) (xs : List Str) → insert_text s xs ≢ []
unfolding insert_text
insert_some s [] e = cc
insert_some s (x ∷ xs) e = ground arith

-- The names of a report: those, each of which the test accepts, and at least one.
abbrev Reports : List Str → (Str → Bool) → Type 0
Reports names test = (names ≢ []) × ((n : Str) → listed n names ≡ test n)

module _ (to_text : Number → Str) (to_number : Str → Number) (params : Str → Option TemplateValue)
    (template : MissionTemplate) where
  -- What is left of the placeholders of a text once the parameters are put in.
  abbrev pub left_in : Str → List Str
  left_in s = placeholders_in (substitute_string to_text to_number params s)

  abbrev pub left_in_value : TemplateValue → List Str
  left_in_value = unresolved_in_value to_text to_number params

  abbrev pub is_left : Str → Bool
  is_left n =
      listed n (left_in template.body.name)
      || listed n (flat_map left_in_value (flat_map values_of template.body.waypoints))

  -- Every parameter that the template requires is supplied.
  abbrev pub Supplied : Type 0
  Supplied = (n : Str) → is_required n template ≡ true → is_missing (params n) ≡ false

  pub data Instantiated (r : InstantiationResult) : Type 0 where
    incomplete :
        Reports r.missing_parameters (λ n. is_missing (params n) && is_required n template)
        → r.unresolved_placeholders ≡ []
        → r.mission ≡ none
        → Instantiated r
    residual :
        Supplied
        → r.missing_parameters ≡ []
        → Reports r.unresolved_placeholders is_left
        → r.mission ≡ none
        → Instantiated r
    resolved :
        Supplied
        → r.missing_parameters ≡ []
        → r.unresolved_placeholders ≡ []
        → r.mission ≡ some (resolved_body to_text to_number params template)
        → placeholders_in (resolved_body to_text to_number params template).name ≡ []
        → All (λ v. left_in_value v ≡ []) (flat_map values_of template.body.waypoints)
        → Instantiated r

  missing_iff :
      (n : Str)
      → listed n (missing_in to_text to_number params template)
        ≡ (is_missing (params n) && is_required n template)
  unfolding missing_in
  missing_iff n =
      listed_filter (λ name. is_missing (params name)) n (required_parameters template)
      ∙ ap (λ b. is_missing (params n) && b) (required_parameters_iff n template)

  supplied : missing_in to_text to_number params template ≡ [] → Supplied
  unfolding listed
  supplied e n h = ground (arith, missing_iff n, ap (listed n) e)

  left_iff : (n : Str) → listed n (unresolved_in to_text to_number params template) ≡ is_left n
  unfolding unresolved_in unresolved_in_value
  left_iff n =
      listed_distinct n _
      ∙ listed_append n (left_in template.body.name)
          (flat_map left_in_value (flat_map values_of template.body.waypoints))

  none_left :
      unresolved_in to_text to_number params template ≡ []
      → (left_in template.body.name ≡ [])
        × All (λ v. left_in_value v ≡ []) (flat_map values_of template.body.waypoints)
  unfolding unresolved_in unresolved_in_value
  none_left e =
      let (h, hs) = append_empty (left_in template.body.name) _ (distinct_empty _ e) in
      (h, flat_map_empty left_in_value _ hs)

  instantiate_incomplete :
      (m : Str) (ms : List Str)
      → missing_in to_text to_number params template ≡ m ∷ ms
      → Instantiated (instantiate_template to_text to_number params template)
  unfolding instantiate_template
  instantiate_incomplete m ms e =
      rw (e, instantiate_template)
        (incomplete (λ q. cons_some m ms q, λ n. ap (listed n) (sym e) ∙ missing_iff n) refl refl)

  instantiate_complete :
      (left : List Str)
      → missing_in to_text to_number params template ≡ []
      → unresolved_in to_text to_number params template ≡ left
      → Instantiated (instantiate_template to_text to_number params template)
  unfolding instantiate_template resolved_body sort_texts
  instantiate_complete [] e h =
      let (name, fields) = none_left h in
      rw (e, h, instantiate_template) (resolved (supplied e) refl refl refl name fields)
  instantiate_complete (u ∷ us) e h =
      rw (e, h, instantiate_template)
        (residual (supplied e) refl
          (
            insert_some u (sort_texts us),
            λ n. listed_sort n (u ∷ us) ∙ ap (listed n) (sym h) ∙ left_iff n,
          )
          refl)

  instantiate_cases :
      (missing : List Str)
      → missing_in to_text to_number params template ≡ missing
      → Instantiated (instantiate_template to_text to_number params template)
  instantiate_cases [] e = instantiate_complete _ e refl
  instantiate_cases (m ∷ ms) e = instantiate_incomplete m ms e

  -- Instantiation reports exactly the required parameters without a value, if there are any; else
  -- exactly the placeholders that are left once the parameters are put in, if there are any; else
  -- it gives the resolved mission, whose name and whose texts of waypoints hold no placeholder.
  pub instantiate_template-Instantiated :
      Instantiated (instantiate_template to_text to_number params template)
  instantiate_template-Instantiated = instantiate_cases _ refl
