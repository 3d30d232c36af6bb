-- ===== src/Model/Registry/Tests.antt =====
-- Two models, one of which has the tag that a request prefers, in two orders.
use mathlib.Core.List.{Memᴰ}
use domour.Common.{if◌then◌else◌, ◌≡◌, refl, ap, sym, ◌∙◌, none, some, List, [], ◌∷◌}
use domour.Common.Text.{Str, codes, equal}
use domour.Common.Unicode.{ascii, to_lower, trim_space, lower_rune, space_rune, trim_left}
use domour.Model.Registry.{
  Registration, Registry, id_required, register, to_set, tags_of, has_any, contains_all,
  count_matches, is_candidate, score, is_better, best_loop, query_best_model,
}
use domour.Model.Registry.Best.{Best, best_loop-Best}
use domour.Model.Registry.Order.{IsRegistry, SameEntries, query_best_model-order_free}

abbrev small : Registration
small = record {
  id = codes "a";
  provider = codes "p";
  model_name = codes "small";
  tags = codes "free" ∷ [];
  user_tags = [];
}

abbrev large : Registration
large = record {
  id = codes "b";
  provider = codes "p";
  model_name = codes "large";
  tags = codes "deep" ∷ codes "free" ∷ [];
  user_tags = [];
}

abbrev models : Registry
models = (codes "a", small) ∷ (codes "b", large) ∷ []

abbrev swapped : Registry
swapped = (codes "b", large) ∷ (codes "a", small) ∷ []

abbrev free : List Str
free = codes "free" ∷ []

abbrev deep : List Str
deep = codes "deep" ∷ []

query-large : query_best_model ascii models free deep [] ≡ (codes "p", codes "large")
unfolding query_best_model best_loop is_candidate is_better score count_matches contains_all has_any
    tags_of to_set to_lower lower_rune trim_space trim_left space_rune equal
query-large = refl

register-nameless : (register ascii [] (record small { id = codes " " })).0 ≡ some id_required
unfolding register trim_space trim_left space_rune equal
register-nameless = refl

models-keyed : (k : Str) (reg : Registration) → Memᴰ (k, reg) models → reg.id ≡ k
models-keyed k reg (Memᴰ.head e) = ap (λ x. x.1.id) e ∙ sym (ap (λ x. x.0) e)
models-keyed k reg (Memᴰ.tail (Memᴰ.head e)) = ap (λ x. x.1.id) e ∙ sym (ap (λ x. x.0) e)
models-keyed k reg (Memᴰ.tail (Memᴰ.tail x)) = elim x [ ]

abbrev named : Str → Registration
named k = if equal k (codes "a") then small else large

models-named : (k : Str) (reg : Registration) → Memᴰ (k, reg) models → reg ≡ named k
unfolding equal
models-named k reg (Memᴰ.head e) = ap (λ x. x.1) e ∙ sym (ap (λ x. named x.0) e)
models-named k reg (Memᴰ.tail (Memᴰ.head e)) = ap (λ x. x.1) e ∙ sym (ap (λ x. named x.0) e)
models-named k reg (Memᴰ.tail (Memᴰ.tail x)) = elim x [ ]

models-IsRegistry : IsRegistry models
models-IsRegistry = record {
  keyed = models-keyed;
  one = λ k a b p q. models-named k a p ∙ sym (models-named k b q);
}

to_swapped : (k : Str) (reg : Registration) → Memᴰ (k, reg) models → Memᴰ (k, reg) swapped
to_swapped k reg (Memᴰ.head e) = Memᴰ.tail (Memᴰ.head e)
to_swapped k reg (Memᴰ.tail (Memᴰ.head e)) = Memᴰ.head e
to_swapped k reg (Memᴰ.tail (Memᴰ.tail x)) = elim x [ ]

from_swapped : (k : Str) (reg : Registration) → Memᴰ (k, reg) swapped → Memᴰ (k, reg) models
from_swapped k reg (Memᴰ.head e) = Memᴰ.tail (Memᴰ.head e)
from_swapped k reg (Memᴰ.tail (Memᴰ.head e)) = Memᴰ.head e
from_swapped k reg (Memᴰ.tail (Memᴰ.tail x)) = elim x [ ]

swapped-SameEntries : SameEntries models swapped
swapped-SameEntries k reg = (to_swapped k reg, from_swapped k reg)

query_best_model-order_free_example :
    query_best_model ascii models free deep [] ≡ query_best_model ascii swapped free deep []
query_best_model-order_free_example =
    query_best_model-order_free ascii models swapped free deep [] models-IsRegistry
      swapped-SameEntries

best_loop-Best_example : Best ascii free deep [] models (best_loop ascii free deep [] models none)
best_loop-Best_example = best_loop-Best ascii free deep [] models
