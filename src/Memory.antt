-- ===== src/Memory.antt =====
-- Arrays of bytes as the C library's functions read and write them: `memcpy`, `strcpy`, `bzero`,
-- and the conversions between the orders of a number's bytes. A copy that leaves an array faults.
pub mod Splice
use node_identity_architetur.Base.{
  ℕ, ◌+◌, ◌-◌, ◌*◌, ◌/◌, ◌%◌, Bool, true, false, ◌&&◌, List, [], ◌∷◌, ◌++◌, ◌==◌, ltb, leb,
  if◌then◌else◌, length, take, drop, get_or, replicate,
}
use node_identity_architetur.Nid.{CString}
use node_identity_architetur.Run.{Run, ok, out_of_bounds, ◌>>=◌}

-- An array with its size: the list's length.
abbrev pub Buffer : Type 0
Buffer = List ℕ

-- `memcpy` from an array
unfoldable pub copy_from : ℕ → ℕ → Buffer → Run (List ℕ)
copy_from at count buf =
    if leb (at + count) (length buf) then ok (take count (drop at buf)) else out_of_bounds

unfoldable pub splice : ℕ → List ℕ → Buffer → Buffer
splice at bs buf = take at buf ++ (bs ++ drop (at + length bs) buf)

-- `memcpy` into an array
unfoldable pub copy_to : ℕ → List ℕ → Buffer → Run Buffer
unfolding splice
copy_to at bs buf =
    if leb (at + length bs) (length buf) then ok (splice at bs buf) else out_of_bounds

-- An array of the size, all zeros but for the bytes copied to its start.
unfoldable pub fill : ℕ → List ℕ → Run Buffer
fill size bs =
    if leb (length bs) size then ok (bs ++ replicate (size - length bs) 0) else out_of_bounds

-- The text in an array
unfoldable pub until_nul : List ℕ → CString
until_nul [] = []
until_nul (c ∷ cs) = let rest = until_nul cs in if c == 0 then [] else c ∷ rest

unfoldable pub terminated : List ℕ → Bool
terminated [] = false
terminated (c ∷ cs) = let rest = terminated cs in if c == 0 then true else rest

-- `strcpy` from a place of an array into an array of the size
unfoldable pub strcpy : ℕ → ℕ → Buffer → Run CString
unfolding until_nul terminated
strcpy size at buf =
    let text = drop at buf in
    if terminated text && ltb (length (until_nul text)) size
    then ok (until_nul text)
    else out_of_bounds

-- `htons` and `htonl`: the bytes of the result in memory
unfoldable pub htons : ℕ → List ℕ
htons v = v / 256 % 256 ∷ v % 256 ∷ []

unfoldable pub htonl : ℕ → List ℕ
htonl v = v / 16777216 % 256 ∷ v / 65536 % 256 ∷ v / 256 % 256 ∷ v % 256 ∷ []

-- A number of 16 or 32 bits, copied from an array and given to `ntohs` or `ntohl`
unfoldable pub load16 : ℕ → Buffer → Run ℕ
unfolding copy_from
load16 at buf = do bs ← copy_from at 2 buf; ok (get_or bs 0 0 * 256 + get_or bs 1 0)

unfoldable pub load32 : ℕ → Buffer → Run ℕ
unfolding copy_from
load32 at buf = do
  bs ← copy_from at 4 buf
  ok (((get_or bs 0 0 * 256 + get_or bs 1 0) * 256 + get_or bs 2 0) * 256 + get_or bs 3 0)
