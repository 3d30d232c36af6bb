-- ===== src/Model/Registry.antt =====
-- internal/infra/model/registry.go: models are registered with tags, and the best for a request is
-- found by its tags. A set is a list without order; a loop over the map sees its entries in the
-- order of the list. The address of a registration is never written through, so it is a value.
pub mod Best
pub mod Order
mod Tests
use domour.Common.{
  ℕ, ◌+◌, Bool, true, false, not, ◌&&◌, ◌||◌, Option, none, some, List, [], ◌∷◌, ◌++◌, ltb, ◌==◌,
  if◌then◌else◌, any, all,
}
use domour.Common.Text.{Str, equal}
use domour.Common.Assoc.{Assoc, lookup, insert, delete}
use domour.Common.Sort.{has, before, sort_strings}
use domour.Common.Unicode.{Unicode, to_lower, trim_space}

pub record Registration : Type 0 where
  pub id : Str
  pub provider : Str
  pub model_name : Str
  pub tags : List Str
  pub user_tags : List Str

-- byID
abbrev pub Registry : Type 0
Registry = Assoc Registration

-- The errors of Register.
pub data RegisterError : Type 0 where
  id_required : RegisterError
  provider_required model_name_required : Str → RegisterError

-- List: sorted by id; the ids are distinct.
abbrev sorted_place : Registration → List Registration → List Registration
sorted_place a [] = a ∷ []
sorted_place a (b ∷ bs) =
    let rest = sorted_place a bs in if before b.id a.id then b ∷ rest else a ∷ b ∷ bs

unfoldable pub list : Registry → List Registration
list [] = []
list ((k, reg) ∷ m) = sorted_place reg (list m)

module _ (u : Unicode) where
  -- strings.TrimSpace(strings.ToLower(s))
  abbrev pub normal : Str → Str
  normal s = trim_space u (to_lower u s)

  -- The loop of normalizeTags.
  unfoldable pub distinct_tags : List Str → List Str → List Str
  distinct_tags [] out = out
  distinct_tags (s ∷ ss) out =
      let t = normal s in
      distinct_tags ss (if equal t [] || has out t then out else out ++ (t ∷ []))

  -- normalizeTags
  unfoldable pub normalize_tags : List Str → List Str
  unfolding distinct_tags
  normalize_tags tags = sort_strings (distinct_tags tags [])

  -- toSet
  unfoldable pub to_set : List Str → List Str
  to_set [] = []
  to_set (s ∷ ss) = let rest = to_set ss in if has rest (normal s) then rest else normal s ∷ rest

  -- Register: the registry after, or the error.
  unfoldable pub register : Registry → Registration → Option RegisterError × Registry
  unfolding normalize_tags insert
  register r reg =
      let id = trim_space u reg.id in
      if equal id []
      then (some id_required, r)
      else if equal (trim_space u reg.provider) []
      then (some (provider_required id), r)
      else if equal (trim_space u reg.model_name) []
      then (some (model_name_required id), r)
      else (
        none,
        insert id
            (record {
              id = id;
              provider = reg.provider;
              model_name = reg.model_name;
              tags = normalize_tags reg.tags;
              user_tags = normalize_tags reg.user_tags;
            })
            r,
      )

  -- Unregister
  unfoldable pub unregister : Registry → Str → Registry
  unregister r id = delete id r

  -- hasAny, containsAll, countMatches
  unfoldable pub has_any : List Str → List Str → Bool
  has_any tags exclude = any (has exclude) tags

  unfoldable pub contains_all : List Str → List Str → Bool
  contains_all tags required = all (has tags) required

  unfoldable pub count_matches : List Str → List Str → ℕ
  count_matches [] prefer = 0
  count_matches (t ∷ ts) prefer =
      let rest = count_matches ts prefer in if has prefer t then rest + 1 else rest

  -- A request: its tags as sets.
  module _ (required prefer exclude : List Str) where
    unfoldable pub tags_of : Registration → List Str
    unfolding to_set
    tags_of reg = to_set (reg.tags ++ reg.user_tags)

    unfoldable pub is_candidate : Registration → Bool
    unfolding tags_of has_any contains_all
    is_candidate reg = not (has_any (tags_of reg) exclude) && contains_all (tags_of reg) required

    unfoldable pub score : Registration → ℕ
    unfolding tags_of count_matches
    score reg = count_matches (tags_of reg) prefer

    -- `score > bestScore || (score == bestScore && reg.ID < best.ID)`
    unfoldable pub is_better : Registration → Registration → Bool
    unfolding score
    is_better reg best =
        ltb (score best) (score reg) || (score reg == score best && before reg.id best.id)

    -- The loop of QueryBestModel; `bestScore` is the score of `best`.
    unfoldable pub best_loop : Registry → Option Registration → Option Registration
    unfolding is_candidate is_better
    best_loop [] best = best
    best_loop ((id, reg) ∷ m) best = best_loop m (
        if not (is_candidate reg)
        then best
        else elim best [ none ↦ some reg | some b ↦ if is_better reg b then some reg else some b ])

  -- QueryBestModel: the provider and the model's name, both empty when no model matches.
  unfoldable pub query_best_model : Registry → List Str → List Str → List Str → Str × Str
  unfolding best_loop to_set
  query_best_model r required prefer exclude =
      elim (best_loop (to_set required) (to_set prefer) (to_set exclude) r none) [
        | none ↦ ([], [])
        | some best ↦ (best.provider, best.model_name)
      ]
