-- ===== src/App/Names/Resolving.antt =====
-- Which display name is taken.
use nullpipe.Common.{
  ◌≡◌, refl, sym, ap, ◌∙◌, ◌↔◌, inl, inr, false, Bool-cases, Option, none, some, List, [], Result,
  ok, err, if◌then◌else◌,
}
use nullpipe.Std.Text.{Text, is_empty}
use nullpipe.Std.Whitespace.{trim}
use nullpipe.App.Names.{
  Answers, usable, typed_name, ask, from_file, from_override, keep, resolve_name,
}

-- A name comes from a text by trimming it, and is not empty.
abbrev pub IsFrom : Text → Text → Type 0
IsFrom name s = (name ≡ trim s) × (is_empty name ≡ false)

-- Where a name comes from: what the option gives if that is usable, else what the file holds if that is, and else
-- what is typed. Only then is it kept, with a warning at most; a name that was found elsewhere is not.
pub data Source (path : Text) (a : Answers) (override_name : Option Text) (name : Text)
    (warnings : List Text) : Type 0 where
  from_option :
      (s : Text)
      → override_name ≡ some s
      → IsFrom name s
      → warnings ≡ []
      → Source path a override_name name warnings
  from_contents :
      (s : Text)
      → usable override_name ≡ none
      → a.contents ≡ some s
      → IsFrom name s
      → warnings ≡ []
      → Source path a override_name name warnings
  from_line :
      (s : Text)
      → usable override_name ≡ none
      → usable a.contents ≡ none
      → a.line ≡ ok s
      → IsFrom name s
      → warnings ≡ keep path a
      → Source path a override_name name warnings

usable-some :
    (o : Option Text) (name : Text)
    → usable o ≡ some name
    → (s : Text) × (o ≡ some s) × IsFrom name s
usable-some none name h = cc
usable-some (some s) name h = elim (Bool-cases (is_empty (trim s))) [
  | inl e ↦
      let blank : none ≡ some name = sym (ap (λ b. if b then none else some (trim s)) e) ∙ h in cc
  | inr ne ↦
      let got : some (trim s) ≡ some name =
        sym (ap (λ b. if b then none else some (trim s)) ne) ∙ h in
      let same : trim s ≡ name = cc in (s, refl, (sym same, ap is_empty (sym same) ∙ ne))
]

usable-IsFrom :
    (o : Option Text) (s name : Text) → o ≡ some s → IsFrom name s → usable o ≡ some name
usable-IsFrom o s name e (same, full) =
    ap usable e
    ∙ ap (λ b. if b then none else some (trim s)) (ap is_empty (sym same) ∙ full)
    ∙ ap some (sym same)

module _ (path : Text) (a : Answers) (override_name : Option Text) (name : Text)
    (warnings : List Text) where
  abbrev Sourced : Type 0
  Sourced = Source path a override_name name warnings

  typed_name-Source :
      (s : Text) (o : Option Text)
      → usable (some s) ≡ o
      → usable override_name ≡ none
      → usable a.contents ≡ none
      → a.line ≡ ok s
      → typed_name path a o ≡ ok (name, warnings)
      → Sourced
  typed_name-Source s none e e₁ e₂ e₃ h = cc
  typed_name-Source s (some n) e e₁ e₂ e₃ h =
      let named : n ≡ name = cc in
      let warned : keep path a ≡ warnings = cc in
      let (t, same, from) = usable-some (some s) n e in
      let t_lem : s ≡ t = cc in
      from_line s e₁ e₂ e₃
        (sym named ∙ from.0 ∙ ap trim (sym t_lem), ap is_empty (sym named) ∙ from.1) (sym warned)

  ask-Source :
      (r : Result Text Text)
      → a.line ≡ r
      → usable override_name ≡ none
      → usable a.contents ≡ none
      → ask path a r ≡ ok (name, warnings)
      → Sourced
  ask-Source (err e) r e₁ e₂ h = cc
  ask-Source (ok line) r e₁ e₂ h = typed_name-Source line (usable (some line)) refl e₁ e₂ r h

  from_file-Source :
      (o : Option Text)
      → usable a.contents ≡ o
      → usable override_name ≡ none
      → from_file path a o ≡ ok (name, warnings)
      → Sourced
  from_file-Source none e e₁ h = ask-Source a.line refl e₁ e h
  from_file-Source (some n) e e₁ h =
      let named : n ≡ name = cc in
      let warned : [] ≡ warnings = cc in
      let (t, same, from) = usable-some a.contents n e in
      from_contents t e₁ same (sym named ∙ from.0, ap is_empty (sym named) ∙ from.1) (sym warned)

  from_override-Source :
      (o : Option Text)
      → usable override_name ≡ o
      → from_override path a o ≡ ok (name, warnings)
      → Sourced
  from_override-Source none e h = from_file-Source (usable a.contents) refl e h
  from_override-Source (some n) e h =
      let named : n ≡ name = cc in
      let warned : [] ≡ warnings = cc in
      let (t, same, from) = usable-some override_name n e in
      from_option t same (sym named ∙ from.0, ap is_empty (sym named) ∙ from.1) (sym warned)

  Source-resolve_name : Sourced → resolve_name path a override_name ≡ ok (name, warnings)
  unfolding resolve_name
  Source-resolve_name (from_option s e from w) =
      ap (from_override path a) (usable-IsFrom override_name s name e from)
      ∙ ap (λ l. ok (name, l)) (sym w)
  Source-resolve_name (from_contents s e e₁ from w) =
      ap (from_override path a) e
      ∙ ap (from_file path a) (usable-IsFrom a.contents s name e₁ from)
      ∙ ap (λ l. ok (name, l)) (sym w)
  Source-resolve_name (from_line s e e₁ e₂ from w) =
      ap (from_override path a) e
      ∙ ap (from_file path a) e₁
      ∙ ap (ask path a) e₂
      ∙ ap (typed_name path a) (usable-IsFrom (some s) s name refl from)
      ∙ ap (λ l. ok (name, l)) (sym w)

-- A name is taken exactly from the option if that is usable, else from the file if that is, and else from the line
-- that is typed; it is that text without the white space around it, is not empty, and there are warnings only if it
-- was typed and could not be kept.
pub resolve_name_sources :
    (path : Text) (a : Answers) (override_name : Option Text) (name : Text) (warnings : List Text)
    → (resolve_name path a override_name ≡ ok (name, warnings))
      ↔ Source path a override_name name warnings
unfolding resolve_name
resolve_name_sources path a override_name name warnings = (
  λ h. from_override-Source path a override_name name warnings (usable override_name) refl h,
  Source-resolve_name path a override_name name warnings,
)
