-- ===== src/AnthropicRequest/Files.antt =====
-- What services/proxy/src/anthropic_request.rs uses of its temporary file.
use internal_ai_gateway.Base.{
  ℕ, zero, suc, ◌+◌, ◌≤◌, ◌≡◌, refl, ap, List, [], ◌∷◌, ◌++◌, append-nil, length, take, drop,
  Result, ok, arith,
}
use internal_ai_gateway.OpenAiRequest.{IoError}

-- Temporary files, by what is done with them. A reader is given the bytes from the file's position on; it
-- leaves the file at any other.
pub record Files : Type 1 where
  pub File : Type 0
  pub tempfile : Result IoError File
  pub write : List ℕ → File → Result IoError File
  pub flush : File → Result IoError File
  -- `seek(SeekFrom::Start(0))`.
  pub rewind : File → Result IoError File
  pub read : File → List ℕ × File

-- What a file is: its bytes and a position in them. A write replaces the bytes behind the position and
-- moves it to its own end.
pub record IsKept (files : Files) : Type 0 where
  pub contents : files.File → List ℕ
  pub position : files.File → ℕ
  pub empty : (f : files.File) → files.tempfile ≡ ok f → (contents f ≡ []) × (position f ≡ 0)
  pub written :
      (input : List ℕ) (f g : files.File)
      → files.write input f ≡ ok g
      → (contents g
          ≡ take (position f) (contents f)
            ++ (input ++ drop (position f + length input) (contents f)))
        × (position g ≡ position f + length input)
  pub flushed :
      (f g : files.File)
      → files.flush f ≡ ok g
      → (contents g ≡ contents f) × (position g ≡ position f)
  pub rewound :
      (f g : files.File) → files.rewind f ≡ ok g → (contents g ≡ contents f) × (position g ≡ 0)
  pub read_from :
      (f : files.File)
      → ((files.read f).0 ≡ drop (position f) (contents f))
        × (contents (files.read f).1 ≡ contents f)

take_all : (xs : List ℕ) → take (length xs) xs ≡ xs
take_all [] = refl
take_all (x ∷ xs) = ap (λ ys. x ∷ ys) (take_all xs)

drop_all : (n : ℕ) (xs : List ℕ) → length xs ≤ n → drop n xs ≡ []
drop_all zero [] h = refl
drop_all zero (x ∷ xs) h = absurd (omega arith)
drop_all (suc n) [] h = refl
drop_all (suc n) (x ∷ xs) h = drop_all n xs (omega arith)

-- A write at the end goes behind what is there.
pub at_the_end :
    (position n : ℕ) (xs input : List ℕ)
    → position ≡ length xs
    → take position xs ++ (input ++ drop (position + n) xs) ≡ xs ++ input
at_the_end position n xs input e =
    rw (e, take_all xs, drop_all (length xs + n) xs (omega arith))
      (ap (λ ys. xs ++ ys) (append-nil input))
