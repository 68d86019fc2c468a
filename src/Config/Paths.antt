-- ===== src/Config/Paths.antt =====
-- internal/config/config.go: `expandHome`, `ResolvePath` and `EnvFilePath`, with the functions
-- `Clean`, `Join` and `Abs` of package path/filepath that they call, on Unix paths.
use smolllm_server.Base.{
  ◌≡◌, refl, Bool, true, not, ◌||◌, ◌&&◌, Option, none, some, List, [], ◌∷◌, ◌++◌, reverse,
  if◌then◌else◌, ◌==◌, text_eq, text_discrete, Text, codes, has_prefix, split, drop, Result, ok,
  err, ◌>>=◌, arith, lookup, Dict, All, All-reverse, ◌≢◌, subst, Option-cases, >>=-eq-ok,
  Bool-cases, inl, inr,
}
use smolllm_server.Config.{Config}

pub data PathError : Type 0 where
  no_home no_working_directory : PathError

-- What the operating system answers: the home and working directories.
pub record Places : Type 0 where
  pub home : Option Text
  pub cwd : Option Text

-- the environment of the process; `os.Getenv` gives "" for a missing name
abbrev pub Env : Type 0
Env = Dict Text Text

abbrev pub getenv : Env → Text → Text
getenv env k = elim (lookup k env) [ none ↦ [] | some v ↦ v ]

abbrev pub is_abs : Text → Bool
is_abs p = has_prefix p (codes "/")

-- one path element against the elements kept so far, the last one first
clean_step : Bool → List Text → Text → List Text
clean_step rooted [] part =
    if part == [] || part == codes "."
    then []
    else if part == codes ".." && rooted
    then []
    else part ∷ []
clean_step rooted (top ∷ stack) part =
    if part == [] || part == codes "."
    then top ∷ stack
    else if part == codes ".." && not (top == codes "..")
    then stack
    else part ∷ top ∷ stack

clean_from : Bool → List Text → List Text → List Text
clean_from rooted stack [] = reverse stack
clean_from rooted stack (part ∷ parts) = clean_from rooted (clean_step rooted stack part) parts

pub join_parts : List Text → Text
join_parts [] = []
join_parts (p ∷ []) = p
join_parts (p ∷ q ∷ ps) = p ++ (b'/' ∷ join_parts (q ∷ ps))

-- `filepath.Clean`
unfoldable pub clean : Text → Text
unfolding clean_step clean_from join_parts
clean p =
    let body = join_parts (clean_from (is_abs p) [] (split b'/' p)) in
    if is_abs p then b'/' ∷ body else if body == [] then codes "." else body

-- `filepath.Join` of two elements: empty elements are left out
unfoldable pub join : Text → Text → Text
join a b =
    if a == []
    then (if b == [] then [] else clean b)
    else if b == []
    then clean a
    else clean (a ++ (b'/' ∷ b))

-- `expandHome`
unfoldable pub expand_home : Places → Text → Result PathError Text
expand_home os p =
    if p == []
    then ok []
    else if p == codes "~" || has_prefix p (codes "~/")
    then elim os.home [
      | none ↦ err no_home
      | some home ↦ ok (if p == codes "~" then home else join home (drop 2 p))
    ]
    else ok p

-- `filepath.Abs`
unfoldable pub absolute : Places → Text → Result PathError Text
absolute os p =
    if is_abs p
    then ok (clean p)
    else elim os.cwd [ none ↦ err no_working_directory | some cwd ↦ ok (join cwd p) ]

abbrev pub env_config_path : Text
env_config_path = codes "SMOLLLM_SERVER_CONFIG"

abbrev pub default_config_path : Text
default_config_path = codes "~/.config/smolllm-server/config.yaml"

-- the path to expand: explicit, else the environment's, else the default
unfoldable pub candidate_path : Env → Text → Text
candidate_path env explicit =
    if not (explicit == [])
    then explicit
    else if not (getenv env env_config_path == [])
    then getenv env env_config_path
    else default_config_path

-- `ResolvePath`
unfoldable pub resolve_path : Places → Env → Text → Result PathError Text
resolve_path os env explicit = do
  expanded ← expand_home os (candidate_path env explicit)
  absolute os expanded

-- `EnvFilePath`
unfoldable pub env_file_path : Places → Config → Result PathError Text
env_file_path os c = if c.server.env_file == [] then ok [] else expand_home os c.server.env_file

-- no element of a clean absolute path
abbrev pub IsPlain : Text → Type 0
IsPlain part = (part ≢ []) × (part ≢ codes ".") × (part ≢ codes "..")

-- An absolute path with no empty, "." or ".." element.
pub record IsClean (p : Text) : Type 0 where
  pub parts : List Text
  pub spelled : p ≡ b'/' ∷ join_parts parts
  pub plain : All IsPlain parts

clean_step-IsPlain :
    (stack : List Text) (part : Text) → All IsPlain stack → All IsPlain (clean_step true stack part)
unfolding clean_step
clean_step-IsPlain [] part h = ground arith
clean_step-IsPlain (top ∷ stack) part h = ground arith

clean_from-IsPlain :
    (parts stack : List Text) → All IsPlain stack → All IsPlain (clean_from true stack parts)
unfolding clean_from
clean_from-IsPlain [] stack h = All-reverse IsPlain stack h
clean_from-IsPlain (part ∷ parts) stack h =
    clean_from-IsPlain parts (clean_step true stack part) (clean_step-IsPlain stack part h)

clean-IsClean : (p : Text) → is_abs p ≡ true → IsClean (clean p)
unfolding clean
clean-IsClean p h = record {
  parts = clean_from true [] (split b'/' p);
  spelled = rw h refl;
  plain = clean_from-IsPlain (split b'/' p) [] tt;
}

is_abs-append : (a b : Text) → is_abs a ≡ true → is_abs (a ++ b) ≡ true
unfolding has_prefix
is_abs-append [] b h = cc
is_abs-append (c ∷ a) b h = h

join-IsClean : (a b : Text) → is_abs a ≡ true → IsClean (join a b)
unfolding join has_prefix text_discrete clean
join-IsClean [] b h = cc
join-IsClean (c ∷ a) [] h = clean-IsClean (c ∷ a) h
join-IsClean (c ∷ a) (d ∷ b) h =
    clean-IsClean (c ∷ a ++ (b'/' ∷ d ∷ b)) (is_abs-append (c ∷ a) (b'/' ∷ d ∷ b) h)

absolute-IsClean :
    (os : Places) (p : Text) {q : Text}
    → ((d : Text) → os.cwd ≡ some d → is_abs d ≡ true)
    → absolute os p ≡ ok q
    → IsClean q
unfolding absolute
absolute-IsClean os p {q} rooted h = elim (Bool-cases (is_abs p)) [
  | inl abs ↦ let e : clean p ≡ q = cc (rw abs at h) in subst IsClean e (clean-IsClean p abs)
  | inr rel ↦ elim (Option-cases os.cwd) [
    | inl gone ↦ cc (rw (rel, gone) at h)
    | inr (d, found) ↦
        let e : join d p ≡ q = cc (rw (rel, found) at h) in
        subst IsClean e (join-IsClean d p (rooted d found))
  ]
]

-- Where the working directory is absolute, a path that `ResolvePath` returns is absolute and has no
-- empty, "." or ".." element, wherever it came from.
pub resolve_path-IsClean :
    (os : Places) (env : Env) (explicit : Text) {p : Text}
    → ((d : Text) → os.cwd ≡ some d → is_abs d ≡ true)
    → resolve_path os env explicit ≡ ok p
    → IsClean p
unfolding resolve_path
resolve_path-IsClean os env explicit rooted h =
    let (expanded, _, abs) =
      >>=-eq-ok (expand_home os (candidate_path env explicit)) (λ e. absolute os e) h in
    absolute-IsClean os expanded rooted abs
