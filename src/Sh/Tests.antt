-- ===== src/Sh/Tests.antt =====
-- Small runs of the parser of the shell.
use os_ass.Base.{◌≡◌, ◌≢◌, refl, List, [], ◌∷◌, ℕ}
use os_ass.Sh.{
  gettoken, skip_space, word_of, scan_token, after_greater, peek, starts_among, space, symbol,
}
use os_ass.Sh.Parser.{
  execcmd, redircmd, pipecmd, listcmd, backcmd, parsed, syntax_error, stuck, parseredirs, parseargs,
  parsesimple, parseback, parseblock, parseexec, parsepipe, parseline, parsecmd,
}
use os_ass.Sh.Words.{Splits, gettoken_lem}
use os_ass.Sh.Fuel.{parsecmd-ends}

-- "(a b|c >f;d)&"
abbrev block : List ℕ
block = 40 ∷ 97 ∷ 32 ∷ 98 ∷ 124 ∷ 99 ∷ 32 ∷ 62 ∷ 102 ∷ 59 ∷ 100 ∷ 41 ∷ 38 ∷ []

parse_block :
    parsecmd block
    ≡ parsed (
        backcmd (
          listcmd
            (pipecmd
              (execcmd ((97 ∷ []) ∷ (98 ∷ []) ∷ []))
              (redircmd (execcmd ((99 ∷ []) ∷ [])) (102 ∷ []) 0x201 1))
            (execcmd ((100 ∷ []) ∷ []))))
unfolding parsecmd parseline parsepipe parseexec parseblock parseback parsesimple parseargs
    parseredirs peek starts_among gettoken scan_token after_greater word_of skip_space space symbol
parse_block = refl

-- "(a": the parenthesis is missing
unclosed : parsecmd (40 ∷ 97 ∷ []) ≡ syntax_error
unfolding parsecmd parseline parsepipe parseexec parseblock parseback parsesimple parseargs
    parseredirs peek starts_among gettoken scan_token after_greater word_of skip_space space symbol
unclosed = refl

gettoken_lem_example :
    let (tok, cs, rest) = gettoken (32 ∷ 62 ∷ 62 ∷ 97 ∷ []) in
    Splits (32 ∷ 62 ∷ 62 ∷ 97 ∷ []) tok cs rest
gettoken_lem_example = gettoken_lem (32 ∷ 62 ∷ 62 ∷ 97 ∷ [])

parsecmd-ends_example : parsecmd block ≢ stuck
parsecmd-ends_example = parsecmd-ends block
