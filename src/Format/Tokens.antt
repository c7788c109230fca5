-- ===== src/Format/Tokens.antt =====
-- libs/cov-api/include/cov/format.hh, `cov::placeholder`: what a format text is made of.
use git2_cxx.Base.{ℕ, Bytes}

pub data Color : Type 0 where
  normal : Color
  reset : Color
  red : Color
  green : Color
  yellow : Color
  blue : Color
  magenta : Color
  cyan : Color
  bold_normal : Color
  bold_red : Color
  bold_green : Color
  bold_yellow : Color
  bold_blue : Color
  bold_magenta : Color
  bold_cyan : Color
  faint_normal : Color
  faint_red : Color
  faint_green : Color
  faint_yellow : Color
  faint_blue : Color
  faint_magenta : Color
  faint_cyan : Color
  bg_red : Color
  bg_green : Color
  bg_yellow : Color
  bg_blue : Color
  bg_magenta : Color
  bg_cyan : Color
  rating_lines : Color
  bold_rating_lines : Color
  faint_rating_lines : Color
  bg_rating_lines : Color
  rating_functions : Color
  bold_rating_functions : Color
  faint_rating_functions : Color
  bg_rating_functions : Color
  rating_branches : Color
  bold_rating_branches : Color
  faint_rating_branches : Color
  bg_rating_branches : Color

-- Numbers of 32 bits.
pub record Width : Type 0 where
  pub total : ℕ
  pub indent1 : ℕ
  pub indent2 : ℕ

pub data SelfField : Type 0 where
  primary_hash : SelfField
  secondary_hash : SelfField
  tertiary_hash : SelfField
  quaternary_hash : SelfField
  primary_hash_abbr : SelfField
  secondary_hash_abbr : SelfField
  tertiary_hash_abbr : SelfField
  quaternary_hash_abbr : SelfField
  primary_label : SelfField
  secondary_label : SelfField
  tertiary_label : SelfField
  quaternary_label : SelfField

pub data StatsField : Type 0 where
  lines : StatsField
  lines_percent : StatsField
  lines_total : StatsField
  lines_visited : StatsField
  lines_rating : StatsField
  functions_percent : StatsField
  functions_total : StatsField
  functions_visited : StatsField
  functions_rating : StatsField
  branches_percent : StatsField
  branches_total : StatsField
  branches_visited : StatsField
  branches_rating : StatsField

pub data NameType : Type 0 where
  ref_names : NameType
  ref_names_unwrapped : NameType
  magic_ref_names : NameType
  magic_ref_names_unwrapped : NameType
  props : NameType
  props_unwrapped : NameType
  magic_props : NameType
  magic_props_unwrapped : NameType

pub record NameList : Type 0 where
  pub type : NameType
  pub indent : ℕ

pub data CommitField : Type 0 where
  subject : CommitField
  subject_sanitized : CommitField
  body : CommitField
  body_raw : CommitField
  branch : CommitField

pub data PersonField : Type 0 where
  name : PersonField
  email : PersonField
  email_local : PersonField
  date : PersonField
  date_relative : PersonField
  date_timestamp : PersonField
  date_iso_like : PersonField
  date_iso_strict : PersonField
  date_short : PersonField

pub data Who : Type 0 where
  author : Who
  committer : Who
  reporter : Who

pub data Common : Type 0 where
  text : Bytes → Common
  char : ℕ → Common
  color : Color → Common
  width : Width → Common
  self : SelfField → Common
  stats : StatsField → Common
  names : NameList → Common
  commit : CommitField → Common
  person : Who → PersonField → Common

pub data BlockType : Type 0 where
  loop_start : BlockType
  if_start : BlockType
  end : BlockType

pub data Token : Type 0 where
  common : Common → Token
  block_token : BlockType → Bytes → Token

-- `printable` and a vector of them.
mutual
  pub data Printable : Type 0 where
    plain : Common → Printable
    block : BlockType → Bytes → Opcodes → Printable

  pub data Opcodes : Type 0 where
    nil : Opcodes
    cons : Printable → Opcodes → Opcodes
