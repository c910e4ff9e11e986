-- ===== src/Tc/Stats/Blocks.antt =====
-- What the reports of tc_manager.py have to say: the output of `tc filter show` is a sequence of
-- blocks, a header line each with the lines up to the next header.
use technicolor_haze_prism.Base.{
  ℕ, ◌≡◌, refl, sym, ap, ◌∙◌, String, false, none, some, List, [], ◌∷◌, ◌++◌, map, All, text_key,
  ◌==◌, ok, pure, ◌>>=◌, subst, split_lines, strip,
}
use technicolor_haze_prism.Tc.{Kernel, Completed, completed, run_tc, checked}
use technicolor_haze_prism.Tc.Stats.{
  TcRuleStats, Parsing, read_header, read_detail, new_rule, append_current, parse_line, parse_lines,
  no_rules, parse_tc_filter_output, rules_shown, list_rules,
}

pub record Block : Type 0 where
  pub header_line : String
  pub header : ℕ × String
  pub details : List String

abbrev IsDetail : String → Type 0
IsDetail line = read_header line ≡ none

pub record IsBlock (b : Block) : Type 0 where
  pub is_header : read_header b.header_line ≡ some b.header
  pub no_header : All IsDetail b.details

abbrev block_lines : List Block → List String
block_lines [] = []
block_lines (b ∷ blocks) = b.header_line ∷ (b.details ++ block_lines blocks)

abbrev read_details : TcRuleStats → List String → TcRuleStats
read_details rule [] = rule
read_details rule (line ∷ lines) = read_details (read_detail rule line) lines

-- The rule that a block describes.
abbrev pub block_rule : Block → TcRuleStats
block_rule b = read_details (new_rule b.header) b.details

parse_line-header :
    (s : Parsing) (line : String) (header : ℕ × String)
    → read_header line ≡ some header
    → parse_line s line ≡ record { rules = append_current s; current_rule = some (new_rule header) }
unfolding parse_line
parse_line-header s line header e = rw (parse_line, e) refl

parse_lines-append :
    (s : Parsing) (xs ys : List String)
    → parse_lines s (xs ++ ys) ≡ parse_lines (parse_lines s xs) ys
unfolding parse_lines
parse_lines-append s [] ys = refl
parse_lines-append s (x ∷ xs) ys = parse_lines-append (parse_line s x) xs ys

parse_line-preamble : (line : String) → IsDetail line → parse_line no_rules line ≡ no_rules
unfolding parse_line
parse_line-preamble line h = rw (parse_line, h) refl

parse_lines-preamble :
    (lines : List String) → All IsDetail lines → parse_lines no_rules lines ≡ no_rules
unfolding parse_lines
parse_lines-preamble [] h = refl
parse_lines-preamble (line ∷ lines) h =
    ap (λ s. parse_lines s lines) (parse_line-preamble line h.0) ∙ parse_lines-preamble lines h.1

-- The state between two lines of a block.
abbrev under : List TcRuleStats → TcRuleStats → Parsing
under rules rule = record { rules = rules; current_rule = some rule }

parse_line-detail :
    (rules : List TcRuleStats) (rule : TcRuleStats) (line : String)
    → IsDetail line
    → parse_line (under rules rule) line ≡ under rules (read_detail rule line)
unfolding parse_line
parse_line-detail rules rule line h = rw (parse_line, h) refl

parse_lines-details :
    (rules : List TcRuleStats) (rule : TcRuleStats) (lines : List String)
    → All IsDetail lines
    → parse_lines (under rules rule) lines ≡ under rules (read_details rule lines)
unfolding parse_lines
parse_lines-details rules rule [] h = refl
parse_lines-details rules rule (line ∷ lines) h =
    ap (λ s. parse_lines s lines) (parse_line-detail rules rule line h.0)
    ∙ parse_lines-details rules (read_detail rule line) lines h.1

append_assoc :
    (xs : List TcRuleStats) (r : TcRuleStats) (ys : List TcRuleStats)
    → (xs ++ (r ∷ [])) ++ ys ≡ xs ++ (r ∷ ys)
append_assoc [] r ys = refl
append_assoc (x ∷ xs) r ys = ap (λ zs. x ∷ zs) (append_assoc xs r ys)

append_nil : (xs : List TcRuleStats) → xs ≡ xs ++ []
append_nil [] = refl
append_nil (x ∷ xs) = ap (λ zs. x ∷ zs) (append_nil xs)

parse_lines-blocks :
    (s : Parsing) (blocks : List Block)
    → All IsBlock blocks
    → append_current (parse_lines s (block_lines blocks))
      ≡ append_current s ++ map block_rule blocks
unfolding parse_lines append_current
parse_lines-blocks s [] h = append_nil (append_current s)
parse_lines-blocks s (b ∷ blocks) h =
    ap (λ r. append_current (parse_lines r (b.details ++ block_lines blocks)))
      (parse_line-header s b.header_line b.header h.0.is_header)
    ∙ ap append_current (parse_lines-append opened b.details (block_lines blocks))
    ∙ ap (λ r. append_current (parse_lines r (block_lines blocks)))
        (parse_lines-details (append_current s) (new_rule b.header) b.details h.0.no_header)
    ∙ parse_lines-blocks (under (append_current s) (block_rule b)) blocks h.1
    ∙ append_assoc (append_current s) (block_rule b) (map block_rule blocks)
  where
    opened : Parsing
    opened = under (append_current s) (new_rule b.header)

parse-blocks :
    (output : String) (preamble : List String) (blocks : List Block)
    → split_lines output ≡ preamble ++ block_lines blocks
    → All IsDetail preamble
    → All IsBlock blocks
    → parse_tc_filter_output output ≡ map block_rule blocks
unfolding parse_tc_filter_output
parse-blocks output preamble blocks shape before is_block =
    rw (shape, parse_lines-append, parse_lines-preamble preamble before)
      (parse_lines-blocks no_rules blocks is_block)

rules_shown-blocks :
    (c : Completed) (preamble : List String) (blocks : List Block)
    → c.returncode ≡ 0
    → (strip c.stdout == "") ≡ false
    → split_lines c.stdout ≡ preamble ++ block_lines blocks
    → All IsDetail preamble
    → All IsBlock blocks
    → rules_shown c ≡ map block_rule blocks
unfolding rules_shown
rules_shown-blocks c preamble blocks zero_code printed shape before is_block =
    rw (rules_shown, zero_code, printed)
      (parse-blocks c.stdout preamble blocks shape before is_block)

module _ {W : Type 0} (tc : Kernel W) where
  -- Where `tc filter show` exits with 0 and prints some lines without a header and then blocks,
  -- `list_rules` answers one rule for each block, in order, made of its own lines alone.
  pub list_rules-blocks :
      (port : String) (w v : W) (c : Completed) (preamble : List String) (blocks : List Block)
      → tc ("filter" ∷ "show" ∷ "dev" ∷ port ∷ "ingress" ∷ []) w ≡ (completed c, v)
      → c.returncode ≡ 0
      → (strip c.stdout == "") ≡ false
      → split_lines c.stdout ≡ preamble ++ block_lines blocks
      → All IsDetail preamble
      → All IsBlock blocks
      → list_rules tc port w ≡ (ok (map block_rule blocks), v)
  unfolding list_rules run_tc checked
  list_rules-blocks port w v c preamble blocks run zero_code printed shape before is_block =
      subst
        (λ p.
          ((λ w. (checked tc false p.0, p.1)) >>= λ result. pure (rules_shown result)) w
          ≡ (ok (map block_rule blocks), v))
        (sym run)
        (ap (λ rules. (ok rules, v))
          (rules_shown-blocks c preamble blocks zero_code printed shape before is_block))
