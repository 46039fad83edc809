-- ===== src/Github/Item.antt =====
-- `SearchItem` of packages/github/src/search.ts: the fields that discovery records. `nullish`
-- fields are options.
use keco.Prelude.{ℕ, Bool, Option, List}
use keco.Prelude.Text.{Text}

pub record Owner : Type 0 where
  pub login : Text

pub record License : Type 0 where
  pub spdx_id : Option Text

pub record SearchItem : Type 0 where
  pub id : ℕ
  pub full_name : Text
  pub name : Text
  pub owner : Option Owner
  pub description : Option Text
  pub homepage : Option Text
  pub stargazers_count : ℕ
  pub forks_count : ℕ
  pub open_issues_count : ℕ
  pub language : Option Text
  pub license : Option License
  pub topics : List Text
  pub archived : Bool
  pub fork : Bool
  pub default_branch : Text
  pub created_at : Text
  pub updated_at : Text
  pub pushed_at : Option Text

pub record SearchPage : Type 0 where
  pub total_count : ℕ
  pub incomplete_results : Bool
  pub items : List SearchItem
  pub dropped : ℕ
