-- ===== src/Models.antt =====
-- The records that the control plane stores: ctrlp/src/app/models/policy.model.ts and
-- binding.model.ts. `effect` is the text that the record holds, which the type of the source narrows
-- to "allow" and the validators check.
use nauts.Base.{ℕ, List}
use nauts.Base.Text.{Text}

pub record Statement : Type 0 where
  pub effect : Text
  pub actions : List Text
  pub resources : List Text

pub record Policy : Type 0 where
  pub id : Text
  pub account : Text
  pub name : Text
  pub statements : List Statement

pub record PolicyEntry : Type 0 where
  pub policy : Policy
  pub revision : ℕ

pub record Binding : Type 0 where
  pub role : Text
  pub account : Text
  pub policies : List Text

pub record BindingEntry : Type 0 where
  pub binding : Binding
  pub revision : ℕ
