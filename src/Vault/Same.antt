-- ===== src/Vault/Same.antt =====
-- The derived `PartialEq` of `Item` and `Group` in crates/misty-vault/src/model.
use misty.Prelude.{ℕ_discrete, Eq, eq_of_discrete}
use misty.Vault.Item.{Item}
use misty.Vault.Group.{Group}

Group-discrete : Discrete Group
Group-discrete = hlevel ℕ_discrete

Item-discrete : Discrete Item
Item-discrete = hlevel ℕ_discrete

instance pub group_eq : Eq Group
group_eq = eq_of_discrete Group-discrete

instance pub item_eq : Eq Item
item_eq = eq_of_discrete Item-discrete
