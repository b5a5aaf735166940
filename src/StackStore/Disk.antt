-- ===== src/StackStore/Disk.antt =====
-- The files of the stack store, and actions on them. Each call of the operating system that reads or
-- changes them takes the next outcome: it is done, it raises and changes nothing, or the process stops
-- there. Past the list all calls are done. Temporary files and `fsync` change no file of these.
pub mod Rules
use orichum.Base.{
  ℕ, String, Bool, true, false, Option, none, some, List, [], ◌∷◌, leb, if◌then◌else◌,
}
use orichum.StackStore.{StoreError}

pub data FilePath : Type 0 where
  model_path binding_path model_original binding_original marker_path : FilePath

-- The contents; a file may be missing.
pub record Files : Type 0 where
  pub model : Option String
  pub bindings : Option String
  pub model_copy : Option String
  pub binding_copy : Option String
  pub marker : Option String

unfoldable pub get : FilePath → Files → Option String
get model_path f = f.model
get binding_path f = f.bindings
get model_original f = f.model_copy
get binding_original f = f.binding_copy
get marker_path f = f.marker

unfoldable pub set : FilePath → Option String → Files → Files
set model_path v f = record f { model = v }
set binding_path v f = record f { bindings = v }
set model_original v f = record f { model_copy = v }
set binding_original v f = record f { binding_copy = v }
set marker_path v f = record f { marker = v }

pub data Outcome : Type 0 where
  done fails stops : Outcome

pub record World : Type 0 where
  pub files : Files
  pub outcomes : List Outcome

pub data Exit (A : Type 0) : Type 0 where
  returned : A → Exit A
  raised : StoreError → Exit A
  stopped : Exit A

abbrev pub Act : Type 0 → Type 0
Act A = World → Exit A × World

module _ {A : Type 0} where
  abbrev pub pure : A → Act A
  pure a w = (returned a, w)

  abbrev pub raise : StoreError → Act A
  raise e w = (raised e, w)

  -- What follows a call, and what handles its exception; a process that has stopped does neither.
  abbrev pub after : {B : Type 0} → Exit A × World → (A → Act B) → Exit B × World
  after (returned a, w) k = k a w
  after (raised e, w) k = (raised e, w)
  after (stopped, w) k = (stopped, w)

  abbrev pub handled : Exit A × World → (StoreError → Act A) → Exit A × World
  handled (returned a, w) h = (returned a, w)
  handled (raised e, w) h = h e w
  handled (stopped, w) h = (stopped, w)

  infixl 5 ◌>>=◌
  abbrev pub ◌>>=◌ : {B : Type 0} → Act A → (A → Act B) → Act B
  ◌>>=◌ m k w = after (m w) k

  -- `try: m except BaseException as e: h(e)`
  abbrev pub rescue : Act A → (StoreError → Act A) → Act A
  rescue m h w = handled (m w) h

  abbrev pub take_turn : (Files → A × Files) → World → List Outcome → Exit A × World
  take_turn f w [] = (returned (f w.files).0, record { files = (f w.files).1; outcomes = [] })
  take_turn f w (done ∷ os) =
      (returned (f w.files).0, record { files = (f w.files).1; outcomes = os })
  take_turn f w (fails ∷ os) = (raised StoreError.os_error, record w { outcomes = os })
  take_turn f w (stops ∷ os) = (stopped, record w { outcomes = os })

  -- One call.
  unfoldable pub call : (Files → A × Files) → Act A
  call f w = take_turn f w w.outcomes

infixl 5 ◌>>◌
abbrev pub ◌>>◌ : {B : Type 0} → Act (Unit {0}) → Act B → Act B
m >> k = m >>= λ _. k

abbrev pub check : Bool → StoreError → Act (Unit {0})
check true e = pure tt
check false e = raise e

abbrev pub is_given : Option String → Bool
is_given none = false
is_given (some text) = true

unfoldable pub read : FilePath → Act (Option String)
read p = call (λ f. (get p f, f))

-- `os.replace` of a staged text, `_unlink`, and a call that changes none of the files.
unfoldable pub replace : FilePath → String → Act (Unit {0})
replace p text = call (λ f. (tt, set p (some text) f))

unfoldable pub unlink : FilePath → Act (Unit {0})
unlink p = call (λ f. (tt, set p none f))

unfoldable pub stage : Act (Unit {0})
stage = call (λ f. (tt, f))

unfoldable pub fsync_directory : Act (Unit {0})
fsync_directory = call (λ f. (tt, f))

unfoldable pub replace_private_file : FilePath → String → Act (Unit {0})
replace_private_file p text = stage >> replace p text

module _ (length_of : String → ℕ) where
  abbrev pub within : ℕ → Option String → Act (Option String)
  within limit none = pure none
  within limit (some text) =
      if leb (length_of text) limit then pure (some text) else raise StoreError.too_large

  unfoldable pub optional_private_bytes : ℕ → FilePath → Act (Option String)
  optional_private_bytes limit p = read p >>= within limit

  unfoldable pub file_bytes : ℕ → FilePath → Act String
  file_bytes limit p = optional_private_bytes limit p >>= λ o. elim o [
    | none ↦ raise StoreError.unavailable
    | some text ↦ pure text
  ]
