-- ===== src/Examples/Data.antt =====
-- Two devices, their clock readings and a few credentials.
use misty.Prelude.{
  ℕ, Option, none, some, [], ◌∷◌, ok, true, false, nat_ord, list_ord, pair_ord, option_ord, int_ord,
  pos, leb, length, ◌≡◌, refl, arith,
}
use misty.Prelude.Map.{put}
use misty.Vault.Error.{ItemId, DeviceId}
use misty.Vault.Hlc.Order.{Hlc, hlc_ord}
use misty.Vault.Conflict.{Secret}
use misty.Vault.Crdt.OrSet
use misty.Vault.Tombstone.{user}
use misty.Vault.Item.{Item, NewItem, create}
use misty.Vault.ItemSet.{ItemSet, ForkIds}
use misty.Vault.ItemSet.Held.{IsValid, put-IsValid}
use misty.Vault.Item.Laws.{IsOrdered}
use misty.Otp.Config.{OtpConfig}
use misty.Otp.Error.{totp, sha1}

abbrev pub phone : DeviceId
phone = 1 ∷ 1 ∷ 1 ∷ 1 ∷ 1 ∷ 1 ∷ 1 ∷ 1 ∷ 1 ∷ 1 ∷ 1 ∷ 1 ∷ 1 ∷ 1 ∷ 1 ∷ 1 ∷ []

abbrev pub laptop : DeviceId
laptop = 2 ∷ 2 ∷ 2 ∷ 2 ∷ 2 ∷ 2 ∷ 2 ∷ 2 ∷ 2 ∷ 2 ∷ 2 ∷ 2 ∷ 2 ∷ 2 ∷ 2 ∷ 2 ∷ []

abbrev pub now_ms : ℕ
now_ms = 1_800_000_000_000

abbrev pub reading : ℕ → DeviceId → Hlc
reading counter device_id = record { wall_ms = now_ms; counter = counter; device_id = device_id }

abbrev pub token : Secret → OtpConfig
token secret = record {
  kind = totp;
  secret = secret;
  algorithm = sha1;
  digits = 6;
  period = 30;
  counter = 0;
  pin = none;
}

abbrev pub new_item : Secret → NewItem
new_item secret = record {
  otp = token secret;
  issuer = 65 ∷ [];
  account = 66 ∷ [];
  nickname = none;
  note = none;
  tags = (7 ∷ []) ∷ [];
  origins = [];
  groups = [];
  icon = none;
  color = none;
  favorite = false;
  requires_reveal_auth = false;
}

abbrev pub item_of : ItemId → Secret → ℕ → Item
item_of id secret counter = create id (new_item secret) (reading counter phone) (pos now_ms)

abbrev pub first_secret : Secret
first_secret = 5 ∷ 6 ∷ []

abbrev pub second_secret : Secret
second_secret = 5 ∷ 7 ∷ []

abbrev pub first_item : Item
first_item = item_of (10 ∷ []) first_secret 1

-- A second credential under the first one's id.
abbrev pub rival_item : Item
rival_item = item_of (10 ∷ []) second_secret 2

abbrev pub other_item : Item
other_item = item_of (20 ∷ []) (8 ∷ 8 ∷ []) 3

-- The first item again, after an edit of the laptop, and deleted by the phone.
abbrev pub edited_item : Item
edited_item = record first_item { favorite = record { value = true; hlc = reading 5 laptop } }

abbrev pub deleted_item : Item
deleted_item = record first_item {
  deleted = some (record { hlc = reading 4 phone; reason = user });
}

-- The first item with another value under the same clock.
abbrev pub clashing_item : Item
clashing_item = record first_item { favorite = record { value = true; hlc = reading 1 phone } }

-- A derivation that puts every fork at one id.
abbrev pub fork_at : ForkIds
fork_at kept secret = ok (30 ∷ [])

pub item_of-IsOrdered :
    (id : ItemId) (secret : Secret) (counter : ℕ) → IsOrdered (item_of id secret counter)
unfolding create OrSet.add misty.Prelude.Map.get put
item_of-IsOrdered id secret counter = record {
  groups = tt;
  tags = (tt, tt);
  origins = tt;
  usage = tt;
}

pub edited_item-IsOrdered : IsOrdered edited_item
unfolding create OrSet.add misty.Prelude.Map.get put
edited_item-IsOrdered = record { groups = tt; tags = (tt, tt); origins = tt; usage = tt }

pub deleted_item-IsOrdered : IsOrdered deleted_item
unfolding create OrSet.add misty.Prelude.Map.get put
deleted_item-IsOrdered = record { groups = tt; tags = (tt, tt); origins = tt; usage = tt }

-- A set that holds the first item alone, and one that holds another beside it.
abbrev pub one_item : ItemSet
one_item = put (10 ∷ []) first_item []

pub empty-IsValid : IsValid []
unfolding misty.Prelude.Map.get
empty-IsValid = record { sorted = tt; keyed = λ id item h. ground arith }

pub one_item-IsValid : IsValid one_item
unfolding create
one_item-IsValid = put-IsValid first_item [] empty-IsValid

abbrev pub other_items : ItemSet
other_items = put (20 ∷ []) other_item (put (10 ∷ []) rival_item [])

pub other_items-IsValid : IsValid other_items
unfolding create
other_items-IsValid =
    put-IsValid other_item (put (10 ∷ []) rival_item []) (put-IsValid rival_item [] empty-IsValid)
