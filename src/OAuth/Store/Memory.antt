-- ===== src/OAuth/Store/Memory.antt =====
-- A list as a table: the operations of LoopBack's memory connector as the laws describe them.
use microgateway.Common.{refl, not, ◌++◌, ◌∷◌, [], keep}
use mathlib.Core.List.{List as Rows}
use microgateway.OAuth.Store.{DataModel}

abbrev pub memory : {R : Type 0} → DataModel (Rows R) R
memory = record {
  rows = λ m. m;
  create = λ m r. m ++ r ∷ [];
  destroy_all = λ m p. keep (λ r. not (p r)) m;
  rows-create = λ m r. refl;
  rows-destroy_all = λ m p. refl;
}
