-- ===== src/Sh/Parser.antt =====
-- sh.c: the commands, and the functions that parse them, by recursive descent.
use os_ass.Base.{ℕ, zero, suc, ◌+◌, List, [], ◌∷◌, ◌++◌, ◌==◌, if◌then◌else◌, leb, length, ◌*◌}
use os_ass.Sh.{Token, end_of_text, operator, append, word, gettoken, peek}

-- `struct cmd`, with the files and arguments as they are after `nulterminate`
pub data Cmd : Type 0 where
  execcmd : List (List ℕ) → Cmd
  redircmd : Cmd → List ℕ → ℕ → ℕ → Cmd
  pipecmd : Cmd → Cmd → Cmd
  listcmd : Cmd → Cmd → Cmd
  backcmd : Cmd → Cmd

-- how a parse ends: with a result, by `panic`, or out of fuel
pub data Parse {ℓ} (A : Type ℓ) : Type ℓ where
  parsed : A → Parse A
  syntax_error : Parse A
  stuck : Parse A

module _ {ℓ κ} {A : Type ℓ} {B : Type κ} where
  infixl 5 ◌>>=◌
  abbrev pub ◌>>=◌ : Parse A → (A → Parse B) → Parse B
  parsed a >>= rest = rest a
  syntax_error >>= rest = syntax_error
  stuck >>= rest = stuck

-- a file, its mode and its descriptor
pub record Redir : Type 0 where
  pub file : List ℕ
  pub mode : ℕ
  pub fd : ℕ

-- O_WRONLY | O_CREATE
abbrev pub o_wronly_create : ℕ
o_wronly_create = 0x201

abbrev pub maxargs : ℕ
maxargs = 10

-- the switch on the operator
abbrev pub redirection : Token → List ℕ → List Redir
redirection end_of_text file = []
redirection (operator c) file =
    if c == 60
    then record { file = file; mode = 0; fd = 0 } ∷ []
    else if c == 62
    then record { file = file; mode = o_wronly_create; fd = 1 } ∷ []
    else []
redirection append file = record { file = file; mode = o_wronly_create; fd = 1 } ∷ []
redirection word file = []

-- `redircmd` around a command for each redirection, the first inside
abbrev pub redirected : Cmd → List Redir → Cmd
redirected cmd [] = cmd
redirected cmd (r ∷ rs) = redirected (redircmd cmd r.file r.mode r.fd) rs

-- The loop of `parseredirs`, on fuel: the redirections and what is left.
unfoldable pub parseredirs : ℕ → List ℕ → Parse (List Redir × List ℕ)
parseredirs zero text = stuck
parseredirs (suc fuel) text =
    let (found, s) = peek text (60 ∷ 62 ∷ []) in
    let (tok, _, s1) = gettoken s in
    let (file_tok, file, s2) = gettoken s1 in
    let rest = parseredirs fuel s2 >>= λ (rs, s3). parsed (redirection tok file ++ rs, s3) in
    let one : Parse (List Redir × List ℕ) = elim file_tok [
      | word ↦ rest
      | end_of_text ↦ syntax_error
      | operator c ↦ syntax_error
      | append ↦ syntax_error
    ] in
    if found then one else parsed ([], s)

-- The loop of `parseexec`, on fuel, with the number of arguments so far: those that follow, the redirections and
-- what is left.
unfoldable pub parseargs : ℕ → ℕ → List ℕ → Parse (List (List ℕ) × List Redir × List ℕ)
parseargs zero argc text = stuck
parseargs (suc fuel) argc text =
    let (ended, s) = peek text (124 ∷ 41 ∷ 38 ∷ 59 ∷ []) in
    let (tok, arg, s1) = gettoken s in
    let more = parseredirs fuel s1 >>= λ (rs, s2).
    parseargs fuel (argc + 1) s2 >>= λ (args, qs, s3). parsed (arg ∷ args, rs ++ qs, s3) in
    let one : Parse (List (List ℕ) × List Redir × List ℕ) = elim tok [
      | end_of_text ↦ parsed ([], [], s1)
      | word ↦ if leb maxargs (argc + 1) then syntax_error else more
      | operator c ↦ syntax_error
      | append ↦ syntax_error
    ] in
    if ended then parsed ([], [], s) else one

-- a command that is no block
unfoldable pub parsesimple : ℕ → List ℕ → Parse (Cmd × List ℕ)
parsesimple fuel text = parseredirs fuel text >>= λ (rs, s).
    parseargs fuel 0 s >>= λ (args, qs, s1). parsed (redirected (execcmd args) (rs ++ qs), s1)

-- the loop over '&', on fuel
unfoldable pub parseback : ℕ → Cmd → List ℕ → Parse (Cmd × List ℕ)
parseback zero cmd text = stuck
parseback (suc fuel) cmd text =
    let (found, s) = peek text (38 ∷ []) in
    let rest = parseback fuel (backcmd cmd) (gettoken s).2 in
    if found then rest else parsed (cmd, s)

-- for the parser of lines
unfoldable pub parseblock : ℕ → (List ℕ → Parse (Cmd × List ℕ)) → List ℕ → Parse (Cmd × List ℕ)
parseblock fuel parse_line text =
    let (opened, s) = peek text (40 ∷ []) in
    let block = parse_line (gettoken s).2 >>= λ (cmd, s1).
    let (closed, s2) = peek s1 (41 ∷ []) in
    let finish = parseredirs fuel (gettoken s2).2 >>= λ (rs, s3). parsed (redirected cmd rs, s3) in
    if closed then finish else syntax_error in
    if opened then block else syntax_error

unfoldable pub parseexec : ℕ → (List ℕ → Parse (Cmd × List ℕ)) → List ℕ → Parse (Cmd × List ℕ)
parseexec fuel parse_line text =
    let (found, s) = peek text (40 ∷ []) in
    let block = parseblock fuel parse_line s in
    let simple = parsesimple fuel s in if found then block else simple

unfoldable mutual
  pub parsepipe : ℕ → List ℕ → Parse (Cmd × List ℕ)
  parsepipe zero text = stuck
  parsepipe (suc fuel) text = parseexec fuel (parseline fuel) text >>= λ (cmd, s).
      let (found, s1) = peek s (124 ∷ []) in
      let piped =
        parsepipe fuel (gettoken s1).2 >>= λ (right, s2). parsed (pipecmd cmd right, s2) in
      if found then piped else parsed (cmd, s1)

  pub parseline : ℕ → List ℕ → Parse (Cmd × List ℕ)
  parseline zero text = stuck
  parseline (suc fuel) text = parsepipe fuel text >>= λ (first, s).
      parseback fuel first s >>= λ (cmd, s1).
      let (found, s2) = peek s1 (59 ∷ []) in
      let listed =
        parseline fuel (gettoken s2).2 >>= λ (right, s3). parsed (listcmd cmd right, s3) in
      if found then listed else parsed (cmd, s2)

-- the whole text, with fuel for two calls at each character
unfoldable pub parsecmd : List ℕ → Parse Cmd
parsecmd text = parseline (2 * length text + 3) text >>= λ (cmd, s).
    let (_, left) = peek s [] in elim left [ [] ↦ parsed cmd | c ∷ cs ↦ syntax_error ]
