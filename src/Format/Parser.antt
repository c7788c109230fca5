-- ===== src/Format/Parser.antt =====
-- libs/cov-api/src/cov/format/parser.cc, `cov::parser`: the placeholders with a fixed meaning, names,
-- blocks, and `parse`, which chooses by the character behind the '%'.
use git2_cxx.Base.{
  ℕ, ◌+◌, ◌-◌, ◌*◌, ◌%◌, ◌^◌, ◌==◌, Bool, true, false, [], ◌∷◌, Option, none, some, Bytes,
  if◌then◌else◌,
}
use git2_cxx.Format.Tokens.{
  SelfField, StatsField, NameType, CommitField, PersonField, Who, Common, BlockType, Token,
}
use git2_cxx.Format.Values.{Reader, plain, done, switch, until, parse_hex, parse_color, parse_width}
use git2_cxx.Revs.Parse.{is_digit}

-- The loop over digits, in 32 bits.
unfoldable pub indent_from : ℕ → Bytes → ℕ × Bytes
unfolding is_digit
indent_from indent [] = (indent, [])
indent_from indent (c ∷ s) =
    let rest = indent_from ((indent * 10 % 2 ^ 32 + (c - b'0')) % 2 ^ 32) s in
    if is_digit c then rest else (indent, c ∷ s)

unfoldable pub closed_names : NameType → Bytes → ℕ × Bytes → Option Token × Bytes
closed_names type save (indent, []) = (none, save)
closed_names type save (indent, c ∷ rest) =
    if c == b')'
    then (some (plain (Common.names (record { type = type; indent = indent }))), rest)
    else (none, save)

-- `s` is the text behind the '(', and `save` the one from there.
unfoldable pub indented : NameType → Bytes → Reader Token
unfolding indent_from closed_names
indented type save s = closed_names type save (indent_from 0 s)

unfoldable pub parse_ref_names : NameType → Reader Token
unfolding indented
parse_ref_names type [] = (some (plain (Common.names (record { type = type; indent = 0 }))), [])
parse_ref_names type (c ∷ s) =
    if c == b'('
    then indented type (c ∷ s) s
    else (some (plain (Common.names (record { type = type; indent = 0 }))), c ∷ s)

unfoldable pub parse_magic : Reader Token
unfolding switch parse_ref_names
parse_magic s =
    switch
      ((b'D', parse_ref_names NameType.magic_ref_names_unwrapped)
        ∷ (b'd', parse_ref_names NameType.magic_ref_names)
        ∷ (b'Z', parse_ref_names NameType.magic_props_unwrapped)
        ∷ (b'z', parse_ref_names NameType.magic_props)
        ∷ [])
      s

abbrev pub self : SelfField → Reader Token
self field = done (plain (Common.self field))

abbrev pub hash_format : Bool → SelfField → SelfField → Reader Token
hash_format abbr short full = self (if abbr then short else full)

unfoldable pub parse_hash : Bool → Reader Token
unfolding switch
parse_hash abbr s =
    let primary = hash_format abbr SelfField.primary_hash_abbr SelfField.primary_hash in
    let secondary = hash_format abbr SelfField.secondary_hash_abbr SelfField.secondary_hash in
    let tertiary = hash_format abbr SelfField.tertiary_hash_abbr SelfField.tertiary_hash in
    let quaternary = hash_format abbr SelfField.quaternary_hash_abbr SelfField.quaternary_hash in
    switch
      ((b'R', primary)
        ∷ (b'C', primary)
        ∷ (b'1', primary)
        ∷ (b'F', secondary)
        ∷ (b'L', secondary)
        ∷ (b'2', secondary)
        ∷ (b'P', tertiary)
        ∷ (b'f', tertiary)
        ∷ (b'3', tertiary)
        ∷ (b'G', quaternary)
        ∷ (b'B', quaternary)
        ∷ (b'4', quaternary)
        ∷ [])
      s

unfoldable pub parse_date : Reader PersonField
unfolding switch
parse_date s =
    switch
      ((b'd', done PersonField.date)
        ∷ (b'r', done PersonField.date_relative)
        ∷ (b't', done PersonField.date_timestamp)
        ∷ (b'i', done PersonField.date_iso_like)
        ∷ (b'I', done PersonField.date_iso_strict)
        ∷ (b's', done PersonField.date_short)
        ∷ [])
      s

unfoldable pub person_info : Who → Option PersonField × Bytes → Option Token × Bytes
person_info who (none, s) = (none, s)
person_info who (some field, s) = (some (plain (Common.person who field)), s)

unfoldable pub parse_report : Reader Token
unfolding parse_date person_info
parse_report [] = (none, [])
parse_report (c ∷ s) =
    if c == b'D'
    then done (plain (Common.commit CommitField.branch)) s
    else person_info Who.reporter (parse_date (c ∷ s))

abbrev pub stats : StatsField → Reader Token
stats field = done (plain (Common.stats field))

unfoldable pub parse_stats_impl : StatsField → StatsField → StatsField → Reader Token
unfolding switch
parse_stats_impl of_lines of_functions of_branches s =
    switch ((b'L', stats of_lines) ∷ (b'F', stats of_functions) ∷ (b'B', stats of_branches) ∷ []) s

unfoldable pub parse_stats : Reader Token
unfolding switch parse_stats_impl
parse_stats s =
    switch
      ((b'L', stats StatsField.lines)
        ∷ (
          b'P',
          parse_stats_impl StatsField.lines_percent StatsField.functions_percent
              StatsField.branches_percent,
        )
        ∷ (
          b'T',
          parse_stats_impl StatsField.lines_total StatsField.functions_total
              StatsField.branches_total,
        )
        ∷ (
          b'V',
          parse_stats_impl StatsField.lines_visited StatsField.functions_visited
              StatsField.branches_visited,
        )
        ∷ (
          b'r',
          parse_stats_impl StatsField.lines_rating StatsField.functions_rating
              StatsField.branches_rating,
        )
        ∷ [])
      s

unfoldable pub parse_person : Who → Reader Token
unfolding parse_date person_info
parse_person who [] = (none, [])
parse_person who (c ∷ s) =
    if c == b'n'
    then done (plain (Common.person who PersonField.name)) s
    else if c == b'e'
    then done (plain (Common.person who PersonField.email)) s
    else if c == b'l'
    then done (plain (Common.person who PersonField.email_local)) s
    else person_info who (parse_date (c ∷ s))

unfoldable pub closed_block : BlockType → Bytes × Bytes → Option Token × Bytes
closed_block type (ref, []) = (none, [])
closed_block type (ref, c ∷ rest) = (some (Token.block_token type ref), rest)

-- The reference of a block, up to its '['.
unfoldable pub block_of : BlockType → Reader Token
unfolding until closed_block
block_of type s = closed_block type (until b'[' s)

unfoldable pub start_block : Reader Token
unfolding block_of
start_block [] = (none, [])
start_block (c ∷ s) =
    if c == b'?' then block_of BlockType.if_start s else block_of BlockType.loop_start (c ∷ s)

unfoldable pub end_block : Reader Token
end_block [] = (none, [])
end_block (c ∷ s) =
    if c == b'}' then (some (Token.block_token BlockType.end []), s) else (none, c ∷ s)

unfoldable pub parse_labels : Reader Token
unfolding switch
parse_labels s =
    switch
      ((b'n', self SelfField.primary_label)
        ∷ (b'1', self SelfField.primary_label)
        ∷ (b'2', self SelfField.secondary_label)
        ∷ (b'3', self SelfField.tertiary_label)
        ∷ (b'4', self SelfField.quaternary_label)
        ∷ [])
      s

abbrev pub commit : CommitField → Reader Token
commit field = done (plain (Common.commit field))

unfoldable pub parse : Reader Token
unfolding switch start_block end_block parse_hex parse_color parse_width parse_magic parse_ref_names
    parse_hash parse_report parse_stats parse_person parse_labels
parse s =
    switch
      ((b'%', done (plain (Common.char b'%')))
        ∷ (b'n', done (plain (Common.char 10)))
        ∷ (b'{', start_block)
        ∷ (b']', end_block)
        ∷ (b'x', parse_hex)
        ∷ (b'C', parse_color)
        ∷ (b'w', parse_width)
        ∷ (b'm', parse_magic)
        ∷ (b'D', parse_ref_names NameType.ref_names_unwrapped)
        ∷ (b'd', parse_ref_names NameType.ref_names)
        ∷ (b'Z', parse_ref_names NameType.props_unwrapped)
        ∷ (b'z', parse_ref_names NameType.props)
        ∷ (b's', commit CommitField.subject)
        ∷ (b'f', commit CommitField.subject_sanitized)
        ∷ (b'b', commit CommitField.body)
        ∷ (b'B', commit CommitField.body_raw)
        ∷ (b'H', parse_hash false)
        ∷ (b'h', parse_hash true)
        ∷ (b'r', parse_report)
        ∷ (b'p', parse_stats)
        ∷ (b'a', parse_person Who.author)
        ∷ (b'c', parse_person Who.committer)
        ∷ (b'L', parse_labels)
        ∷ [])
      s
