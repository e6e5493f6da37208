-- ===== src/Lib.antt =====
-- RuC: containers, hashes and strings, text encodings, the computer of the macro processor, and the
-- lexer, the operator tables and the expressions of the compiler.
--
-- The repository is a compiler for a language like C. libs/compiler splits a text into tokens with
-- libs/compiler/lexer.c, and libs/compiler/parser.c parses them, the expressions by the precedences
-- of libs/compiler/operations.c, and calls libs/compiler/builder.c for the tree. Before it,
-- libs/macro reads a source text, replaces macros and evaluates the expressions of `#if`, `#elif`,
-- `#while` and `#eval`. It hands each token of such a line to a computer (libs/macro/computer.c), an
-- operator-precedence evaluator with a stack of numbers and a stack of operators. Both are stacks of
-- libs/utils/stack.h, which are vectors of libs/utils/vector.c, which hold items of
-- libs/utils/item.h. Texts are read and written in UTF-8 with libs/utils/utf8.c, which also converts
-- to the code pages 866 and 1251.
--
-- Files, by the code that they are about:
--   Utils.Item      libs/utils/item.h with its default ITEM of -64
--   Utils.Vector    libs/utils/vector.c, functions of the same names; below it, Block with the
--                   bytes that are allocated, Access on what is read and written, Capacity on the
--                   allocated size, Resize on appending and resizing
--   Utils.Stack     libs/utils/stack.h, functions of the same names; below it, Lifo on single calls
--                   and Commands on sequences of calls
--   Utils.Hash      libs/utils/hash.c and hash.h, functions of the same names, on a vector: Chain
--                   with the records behind a cell, Records and Insertion with what hash_add
--                   leaves; Lookup, Roundtrip, Values, Removal and Creation hold results
--   Utils.Strings   libs/utils/strings.c, functions of the same names: Contents with what is
--                   stored, Lengths; Reading and Safety hold results
--   Utils.Utf8      libs/utils/utf8.c, functions of the same names: Codepages with its tables,
--                   Encoding, Letters, Transliteration and Conversion of strings; Roundtrip,
--                   Symbols and Capitals with the alphabets hold results
--   Macro.Token     `token_t` of libs/macro/computer.h and computer_token_to_string
--   Macro.Arith     the operators of computer_select_three and computer_const_number on items
--   Macro.Operators the state of a computer and the static functions of libs/macro/computer.c
--   Macro.Computer  the functions that libs/macro/computer.h declares
--   Macro.Expression  expressions, the numbers that the computer makes of them and their
--                   print, and the calls that parse_expression of libs/macro/parser.c makes for a
--                   line; it evaluates the right operand of `&&` and `||`, too, which
--                   Macro.Value, their value in C, leaves out where the left one tells the result
--   Macro.Simulation, Pending, Brackets, Operand, Chain, Correct, Unbalanced and Steps carry
--                   proofs: the lists that the two stacks hold, and the reports, after each call
--   Macro.Priority, Result, Signs, Termination, Errors and Reports hold results
--   Compiler.Operations  token_t of libs/compiler/token.h and libs/compiler/operations.c, functions
--                   of the same names; Grammar holds results
--   Compiler.Lexer  libs/compiler/lexer.c, functions of the same names, and the constructors of
--                   libs/compiler/token.c: Source with the text, what is skipped and the tokens,
--                   Number, Text with character and string literals, Switch with the `switch` on
--                   symbols, Scanner with `lex`; Decimal, Punctuators, Names and Tokens carry the
--                   proof of Roundtrip, and Behind, Strings and Cases that of Termination;
--                   Comments, Digits and Unterminated hold results
--   Compiler.Parser  libs/compiler/parser.c but its declarations, functions of the same names:
--                   State with the parser, its errors and skip_until; Expression, where Tables and
--                   Rounds are what each function does by itself; Context with its flags,
--                   Statement; Grammar has the expressions as trees with their tokens, and Written
--                   which of them the comments of parser.c and the grammar of C allow and what they
--                   mean, with tables of its own; below Roundtrip is the proof that they are read,
--                   with the result in Roundtrip.Whole; Total and what is below Termination carry
--                   the proof of termination; Skip holds results
--   Prelude         tests, lists and integers over the native numbers
--
-- Items and sizes are 64-bit patterns, numbers below 2 ^ 64; `to_int` is the int64_t of a pattern. A
-- call that changes an object takes it and returns the new one with its result. The C allocator is a
-- parameter `grant` of requests in bytes. A request is computed as in C, where the bytes of 2 ^ 61
-- cells or more wrap; what C then writes past its block is not modelled, and the results that rest
-- on a container that grows bound the cells that are asked for, so that no request wraps. The
-- results on the loops and on the number of reports of a computer alone hold of every run of the
-- model, however long. What C leaves undefined on numbers (signed overflow, division by zero, a bad
-- shift count, a left shift of a negative number) is the result `undefined` of a run; a right shift
-- of a negative number keeps its sign. The recursion of computer_push_token and the loops of
-- computer_const_number and computer_pop_result run on fuel, one more than the number of cells on
-- the operators stack, which is enough since each round takes a cell off it at least; the loops over
-- strings have the length of the string for fuel. The loops along a chain of a hash run on the
-- number of its cells, which is enough where the chain is sound. strings_increase doubles a 64-bit
-- size on fuel of 65. `lex` runs on the length of its text and one more, since each round but the
-- last takes a symbol off the text; the loops over a string literal, which do not always end, run on
-- fuel, too, and the result `none` is no result. The text of the lexer is a list of symbols of
-- utf8_size bytes each; its errors are messages with their position, and EOF is the end of the list.
-- Of a location only loc_is_correct is kept, and of the io only in_is_file.
--
-- The functions of the parser call each other in a circle, and each call costs a unit of fuel: eight
-- for each token and six more are enough for an expression. The tokens of the parser are the current
-- one and those that the lexer gives behind it; behind the last one there is EOF. A set of tokens is
-- a list; the values that an error prints are left out.
--
-- Parameters: the allocator; double arithmetic (Floating); what the lexer calls of
-- libs/compiler/syntax.c (Syntax), the representations of names, their keywords and the strings;
-- what the parser calls of libs/compiler/builder.c (Builder), with the syntax that it changes, and
-- of libs/compiler/syntax.c, and parse_declaration (Statements).
--
-- Not modelled: pointers that are NULL; the variants of the containers for double and int64_t; a
-- power of ten past int64_t in a literal, which C leaves undefined; names, characters and `#eval`
-- inside an expression of libs/macro, and its scan of numbers and tokens from the text; the strings
-- of UTF-32 that libs/utils/strings.c adds; the declarations of the parser; the other libraries (the
-- rest of libs/compiler, libs/utils and libs/macro, and libs/preprocessor), which read and write
-- files for the most part or are left out.
pub mod Prelude
pub mod Utils
pub mod Macro
pub mod Compiler
