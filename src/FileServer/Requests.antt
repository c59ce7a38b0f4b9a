-- ===== src/FileServer/Requests.antt =====
-- 03NetPro_thread/06Socket/04File_Server/server.c: the name of the file in a request.
use demo_class.Common.{ℕ, ◌+◌, ◌≡◌, refl, false, none, some, List, [], ◌∷◌, ◌++◌, length, set}
use demo_class.Links.Seg.{has}
use demo_class.CString.{behind, strstr}
use demo_class.CString.Search.{
  c_string-append, behind-append, strchr-append, strstr-found, strstr-later,
}
use demo_class.FileServer.{get_request, get_filename}

-- no occurrence begins within `pre`
abbrev pub Free : List ℕ → List ℕ → Type 0
Free [] xs = Unit
Free (p ∷ pre) xs = (behind get_request (p ∷ (pre ++ xs)) ≡ none) × Free pre xs

strstr-append :
    (pre xs : List ℕ)
    → Free pre (get_request ++ xs)
    → strstr get_request (pre ++ (get_request ++ xs)) ≡ some (length pre, xs)
strstr-append [] xs f =
    strstr-found get_request xs b'G' (b'E' ∷ b'T' ∷ b' ' ∷ b'/' ∷ xs) (behind-append get_request xs)
strstr-append (p ∷ pre) xs (here, f) =
    strstr-later get_request xs (length pre) p (pre ++ (get_request ++ xs)) here
      (strstr-append pre xs f)

-- A request that holds "GET /" and behind it a name up to a space, in a buffer with a NUL behind the
-- request, gives that name, and the buffer gets a NUL in place of the space.
pub get_filename-request :
    (pre name rest old : List ℕ)
    → Free pre (get_request ++ (name ++ b' ' ∷ rest))
    → has 0 (pre ++ (get_request ++ (name ++ b' ' ∷ rest))) ≡ false
    → has b' ' name ≡ false
    → get_filename ((pre ++ (get_request ++ (name ++ b' ' ∷ rest))) ++ 0 ∷ old)
      ≡ some (
        name,
        set
            ((pre ++ (get_request ++ (name ++ b' ' ∷ rest))) ++ 0 ∷ old)
            (length pre + 5 + length name)
            0,
      )
unfolding get_filename
get_filename-request pre name rest old free no_nul no_space =
    let request = pre ++ (get_request ++ (name ++ b' ' ∷ rest)) in
    rw
      (
        c_string-append request old no_nul,
        strstr-append pre (name ++ b' ' ∷ rest) free,
        strchr-append b' ' name rest no_space,
      )
      refl
