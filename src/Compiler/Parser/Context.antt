-- ===== src/Compiler/Parser/Context.antt =====
-- The parser of libs/compiler/parser.c with its flags, what its statements call of other parts, and
-- what they share.
use ru_c.Prelude.{Bool, true, false, Option, none, some, List, [], ◌∷◌, ◌==◌, if◌then◌else◌}
use ru_c.Utils.Item.{Item, Size, item_max}
use ru_c.Compiler.Operations.{Token}
use ru_c.Compiler.Parser.State.{
  Action, ◌>>=◌, ◌>>◌, return, Location, Builder, ParserError, Wanted, is, Parser, kind, content,
  ident_name, error, build, skip, expect_and_consume,
}
use ru_c.Compiler.Parser.Expression.{Parse}

-- What the statements call besides: of libs/compiler/builder.c, the scopes and the tables of
-- libs/compiler/syntax.c, and `parse_declaration`.
pub record Statements (B : Builder) : Type 1 where
  pub Scope : Type 0
  pub scope_block_enter : B.Syntax → Scope × B.Syntax
  pub scope_block_exit : Scope → B.Syntax → B.Syntax
  pub repr_get_reference : Size → B.Syntax → Item
  pub ident_is_type_specifier : Size → B.Syntax → Bool
  pub parse_declaration : Parse B
  pub build_case_statement : B.Node → B.Node → Location → B.Syntax → B.Node × B.Syntax
  pub build_default_statement : B.Node → Location → B.Syntax → B.Node × B.Syntax
  pub build_compound_statement : List B.Node → Location → Location → B.Syntax → B.Node × B.Syntax
  pub build_null_statement : Location → B.Syntax → B.Node × B.Syntax
  pub build_if_statement : B.Node → B.Node → Option B.Node → Location → B.Syntax → B.Node × B.Syntax
  pub build_switch_statement : B.Node → B.Node → Location → B.Syntax → B.Node × B.Syntax
  pub build_while_statement : B.Node → B.Node → Location → B.Syntax → B.Node × B.Syntax
  pub build_do_statement : B.Node → B.Node → Location → B.Syntax → B.Node × B.Syntax
  pub build_for_statement :
      Option B.Node
      → Option B.Node
      → Option B.Node
      → B.Node
      → Location
      → B.Syntax
      → B.Node × B.Syntax
  pub build_continue_statement : Location → B.Syntax → B.Node × B.Syntax
  pub build_break_statement : Location → B.Syntax → B.Node × B.Syntax
  pub build_return_statement : Option B.Node → Location → B.Syntax → B.Node × B.Syntax

module _ (B : Builder) (S : Statements B) where
  -- The parser with its flags.
  pub record Context : Type 0 where
    pub prs : Parser B
    pub is_in_switch : Bool
    pub is_in_loop : Bool
    pub was_return : Bool

  abbrev pub Act : Type 0 → Type 0
  Act A = Action Context A

  -- What the functions for expressions and tokens do leaves the flags as they are.
  abbrev pub lift : {A : Type 0} → Action (Parser B) A → Act A
  lift p ctx = elim (p ctx.prs) [ none ↦ none | some (x, prs) ↦ some (x, record ctx { prs = prs }) ]

  abbrev pub at : Wanted → Act Bool
  at wanted ctx = some (is (kind B ctx.prs) wanted, ctx)

  abbrev pub make : (B.Syntax → B.Node × B.Syntax) → Act B.Node
  make f = lift (build B f)

  abbrev pub expect : Wanted → ParserError → Act (Unit {0})
  unfolding expect_and_consume
  expect wanted e = lift (expect_and_consume B wanted e)

  -- The rest is skipped, and the statement is broken.
  abbrev pub give_up : List Wanted → Act B.Node
  give_up tokens = do lift (skip B tokens); return B.broken

  abbrev pub refuse : ParserError → Act B.Node
  refuse e = do lift (error B e); give_up (Wanted.semicolon ∷ [])

  -- `is_declaration_specifier`, by the current token.
  abbrev pub specifies : Token → Size → B.Syntax → Bool
  specifies Token.void_keyword name sx = true
  specifies Token.bool_keyword name sx = true
  specifies Token.char_keyword name sx = true
  specifies Token.int_keyword name sx = true
  specifies Token.long_keyword name sx = true
  specifies Token.float_keyword name sx = true
  specifies Token.double_keyword name sx = true
  specifies Token.struct_keyword name sx = true
  specifies Token.enum_keyword name sx = true
  specifies Token.file_keyword name sx = true
  specifies Token.typedef_keyword name sx = true
  specifies Token.const_keyword name sx = true
  specifies Token.identifier name sx =
      if S.repr_get_reference name sx == item_max
      then false
      else S.ident_is_type_specifier (S.repr_get_reference name sx) sx
  specifies _ name sx = false

  abbrev pub is_declaration_specifier : Act Bool
  is_declaration_specifier ctx =
      some (specifies (kind B ctx.prs) (ident_name (content B ctx.prs)) ctx.prs.sx, ctx)

  abbrev pub in_switch : Act Bool
  in_switch ctx = some (ctx.is_in_switch, ctx)

  abbrev pub in_loop : Act Bool
  in_loop ctx = some (ctx.is_in_loop, ctx)

  abbrev pub set_in_switch : Bool → Act (Unit {0})
  set_in_switch flag ctx = some (tt, record ctx { is_in_switch = flag })

  abbrev pub set_in_loop : Bool → Act (Unit {0})
  set_in_loop flag ctx = some (tt, record ctx { is_in_loop = flag })

  abbrev pub set_was_return : Act (Unit {0})
  set_was_return ctx = some (tt, record ctx { was_return = true })

  abbrev pub enter : Act S.Scope
  enter = lift (build B S.scope_block_enter)

  abbrev pub leave : S.Scope → Act (Unit {0})
  leave scp = lift (build B λ sx. (tt, S.scope_block_exit scp sx))

  -- The body of a loop and of a `switch`: the flag is set for it and put back behind it.
  abbrev pub loop_body : Act B.Node → Act B.Node
  loop_body statement = do
    old_in_loop ← in_loop
    set_in_loop true
    body ← statement
    set_in_loop old_in_loop
    return body

  abbrev pub switch_body : Act B.Node → Act B.Node
  switch_body statement = do
    old_in_switch ← in_switch
    set_in_switch true
    body ← statement
    set_in_switch old_in_switch
    return body
