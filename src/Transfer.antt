-- ===== src/Transfer.antt =====
-- grab/transfer.go: the loop that copies a response's body to the file, over what the context, the
-- reader and the writer answer in each round. Bytes are numbers. `encrypt` is
-- meson_node_crypto.Encrypt, which the program imports and does not contain; nothing is assumed of
-- it.
pub mod Copy
use downloadmgr.Prelude.{
  ℕ, ◌+◌, Bool, true, false, not, List, [], ◌∷◌, ◌++◌, Option, none, some, ltb, ◌==◌, if◌then◌else◌,
  length, take, Text,
}

pub data ReadError : Type 0 where
  eof : ReadError
  read_failed : Text → ReadError

pub data CopyError : Type 0 where
  context_done short_write : CopyError
  failed : Text → CopyError

-- One round of the loop: whether the context is done, what Read delivers, and what Write answers
-- if it is called.
pub record Round : Type 0 where
  pub context_is_done : Bool
  pub chunk : List ℕ
  pub read_error : Option ReadError
  pub taken : ℕ
  pub write_error : Option Text

-- `written` is the loop's count, which becomes the result, `n` the field that the gauge and the
-- Response read, and `out` what the writer has taken.
pub record Transfer : Type 0 where
  pub n : ℕ
  pub need_encrypt : Bool
  pub written : ℕ
  pub out : List ℕ

abbrev pub new_transfer : Bool → Transfer
new_transfer need_encrypt = record { n = 0; need_encrypt = need_encrypt; written = 0; out = [] }

-- Whether the loop is left, and then with which error, if any.
abbrev pub Exit : Type 0
Exit = Option (Option CopyError)

abbrev after_read : Option ReadError → Exit
after_read none = none
after_read (some eof) = some none
after_read (some (read_failed e)) = some (some (failed e))

abbrev after_write : Round → Option Text → Exit
after_write r (some e) = some (some (failed e))
after_write r none =
    if not (length r.chunk == r.taken) then some (some short_write) else after_read r.read_error

module _ (encrypt : List ℕ → List ℕ) where
  -- What is handed to Write.
  abbrev pub coded : Bool → List ℕ → List ℕ
  coded need_encrypt chunk = if need_encrypt then encrypt chunk else chunk

  abbrev pub write : Transfer → Round → Transfer
  write c r =
      let written = if ltb 0 r.taken then c.written + r.taken else c.written in
      record c {
        written = written;
        n = if ltb 0 r.taken then written else c.n;
        out = c.out ++ take r.taken (coded c.need_encrypt r.chunk);
      }

  unfoldable pub copy_round : Transfer → Round → Transfer × Exit
  copy_round c r =
      if r.context_is_done
      then (c, some (some context_done))
      else if ltb 0 (length r.chunk)
      then (write c r, after_write r r.write_error)
      else (c, after_read r.read_error)

  -- The loop over the given rounds: `none` if it still runs after them.
  unfoldable pub copy : Transfer → List Round → Transfer × Exit
  unfolding copy_round
  copy c [] = (c, none)
  copy c (r ∷ rs) =
      let (c', exit) = copy_round c r in
      let rest = copy c' rs in elim exit [ some e ↦ (c', some e) | none ↦ rest ]
