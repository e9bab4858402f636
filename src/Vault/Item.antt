-- ===== src/Vault/Item.antt =====
-- crates/misty-vault/src/model/item.rs and icon.rs: one stored credential, each field in the
-- replicated type of its merge rule. The merge stands in `Merge`, the laws below it.
pub mod Merge
pub mod Clocks
pub mod Laws
pub mod Join
pub mod Convergence
pub mod Identity
pub mod Delete
use misty.Prelude.{
  ℕ, ◌-◌, Bool, false, Option, none, some, List, [], ◌∷◌, nat_ord, list_ord, pair_ord, option_ord,
  Eq, eq_of_ord, eq_of_discrete, arith, ℕ_discrete, ℤ, int_ord,
}
use misty.Vault.Error.{Bytes, ItemId}
use misty.Vault.Hlc.Order.{Hlc, hlc_ord}
use misty.Vault.Crdt.Lww.{Lww, lww}
use misty.Vault.Crdt.Scalar.{MaxWins, MinWins}
use misty.Vault.Crdt.Usage.{UsageCounter, from_counts}
use misty.Vault.Crdt.OrSet.{OrSet, empty_set, add}
use misty.Otp.Config.{OtpConfig}
use misty.Otp.Error.{OtpKind, HashAlg}
use misty.Vault.Tombstone.{Tombstone}
use misty.Vault.Conflict.{Secret, Text}

pub data IconRef : Type 0 where
  bundled : Text → IconRef
  custom : Bytes → IconRef
  initials : ℕ → IconRef

OtpKind-discrete : Discrete OtpKind
OtpKind-discrete = hlevel

HashAlg-discrete : Discrete HashAlg
HashAlg-discrete = hlevel

IconRef-discrete : Discrete IconRef
IconRef-discrete = hlevel ℕ_discrete

Bool-discrete : Discrete Bool
Bool-discrete = hlevel

-- The derived `PartialEq`s.
instance pub kind_eq : Eq OtpKind
kind_eq = eq_of_discrete OtpKind-discrete

instance pub algorithm_eq : Eq HashAlg
algorithm_eq = eq_of_discrete HashAlg-discrete

instance pub icon_eq : Eq IconRef
icon_eq = eq_of_discrete IconRef-discrete

instance pub bool_eq : Eq Bool
bool_eq = eq_of_discrete Bool-discrete

instance abbrev pub number_eq : Eq ℕ
number_eq = eq_of_ord nat_ord

instance abbrev pub text_eq : Eq Text
text_eq = eq_of_ord list_ord

instance abbrev pub text_option_eq : Eq (Option Text)
text_option_eq = eq_of_ord option_ord

instance abbrev pub number_option_eq : Eq (Option ℕ)
number_option_eq = eq_of_ord option_ord

instance abbrev pub int_option_eq : Eq (Option ℤ)
int_option_eq = eq_of_ord option_ord

abbrev pub GroupId : Type 0
GroupId = Bytes

pub record Item : Type 0 where
  pub id : ItemId
  pub secret : Secret
  pub kind : Lww OtpKind
  pub algorithm : Lww HashAlg
  pub digits : Lww ℕ
  pub period : Lww ℕ
  pub pin : Lww (Option Secret)
  pub hotp_counter : MaxWins ℕ
  pub issuer : Lww Text
  pub account : Lww Text
  pub nickname : Lww (Option Text)
  pub note : Lww (Option Text)
  pub groups : OrSet GroupId
  pub tags : OrSet Text
  pub origins : OrSet Text
  pub icon : Lww IconRef
  pub color : Lww (Option ℕ)
  pub favorite : Lww Bool
  pub manual_order : Lww (Option ℤ)
  pub archived : Lww Bool
  pub hidden : Lww Bool
  pub requires_reveal_auth : Lww Bool
  pub trashed_at : Lww (Option ℤ)
  pub usage : UsageCounter
  pub last_used_at : MaxWins (Option ℤ)
  pub created_at : MinWins ℤ
  pub deleted : Option Tombstone

-- crates/misty-vault/src/edit.rs
pub record NewItem : Type 0 where
  pub otp : OtpConfig
  pub issuer : Text
  pub account : Text
  pub nickname : Option Text
  pub note : Option Text
  pub tags : List Text
  pub origins : List Text
  pub groups : List GroupId
  pub icon : Option IconRef
  pub color : Option ℕ
  pub favorite : Bool
  pub requires_reveal_auth : Bool

-- `for element in elements { set.add(element, hlc) }`
unfoldable pub add_all : List Bytes → Hlc → OrSet Bytes → OrSet Bytes
add_all [] hlc s = s
add_all (x ∷ xs) hlc s = add_all xs hlc (add x hlc s).0

-- `icon.clone().unwrap_or_default()`
abbrev icon_or_default : Option IconRef → IconRef
icon_or_default none = initials 0
icon_or_default (some icon) = icon

-- `Item::create`: every field is written at one clock.
unfoldable pub create : ItemId → NewItem → Hlc → ℤ → Item
unfolding add_all
create id new hlc created_at_ms = record {
  id = id;
  secret = new.otp.secret;
  kind = lww new.otp.kind hlc;
  algorithm = lww new.otp.algorithm hlc;
  digits = lww new.otp.digits hlc;
  period = lww new.otp.period hlc;
  pin = lww new.otp.pin hlc;
  hotp_counter = record { value = new.otp.counter };
  issuer = lww new.issuer hlc;
  account = lww new.account hlc;
  nickname = lww new.nickname hlc;
  note = lww new.note hlc;
  groups = add_all new.groups hlc empty_set;
  tags = add_all new.tags hlc empty_set;
  origins = add_all new.origins hlc empty_set;
  icon = lww (icon_or_default new.icon) hlc;
  color = lww new.color hlc;
  favorite = lww new.favorite hlc;
  manual_order = lww none hlc;
  archived = lww false hlc;
  hidden = lww false hlc;
  requires_reveal_auth = lww new.requires_reveal_auth hlc;
  trashed_at = lww none hlc;
  usage = from_counts [];
  last_used_at = record { value = none };
  created_at = record { value = created_at_ms };
  deleted = none;
}

-- `Item::rebind`
abbrev pub rebind : ItemId → Item → Item
rebind id item = record item { id = id }
