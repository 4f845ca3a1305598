-- ===== src/Settings/Disk/Transfers.antt =====
-- The loops of reads and writes: what they move when they succeed.
use nagi_shell.Prelude.{ℕ, zero, suc, ◌≡◌, refl, ap, ◌∙◌, true, List, [], ◌∷◌, ◌++◌, take}
use nagi_shell.Settings.Disk.{Bytes, drop, transfer}

take-drop : (k : ℕ) (bytes : Bytes) → take k bytes ++ drop k bytes ≡ bytes
take-drop zero bytes = refl
take-drop (suc k) [] = refl
take-drop (suc k) (b ∷ rest) = ap (λ t. b ∷ t) (take-drop k rest)

-- A loop that is done has moved all of the content.
pub transfer-moved :
    (results : List ℕ) (content : Bytes)
    → (transfer results content).done ≡ true
    → (transfer results content).moved ≡ content
unfolding transfer
transfer-moved results [] h = refl
transfer-moved [] (b ∷ rest) h = absurd (cc)
transfer-moved (zero ∷ results) (b ∷ rest) h = absurd (cc)
transfer-moved (suc k ∷ results) (b ∷ rest) h =
    ap (λ t. take (suc k) (b ∷ rest) ++ t) (transfer-moved results (drop (suc k) (b ∷ rest)) h)
    ∙ take-drop (suc k) (b ∷ rest)
