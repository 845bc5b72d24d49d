-- ===== src/Repair/Resume/Offers.antt =====
-- What a user is offered, against what is resumed without a question.
use alpilab_ai.Base.{ℕ, suc, String, List, [], ◌∷◌, ◌≡◌, refl}
use alpilab_ai.Base.Lists.{take}
use alpilab_ai.Repair.Store.{Store, RepairSessionContext, recent_contexts, sorted}
use alpilab_ai.Repair.Resume.{
  only, resume_active, offered, resume_for_user, recent_sessions_for_user,
}

only-take :
    (n : ℕ) (contexts : List RepairSessionContext)
    → only (take (suc (suc n)) contexts) ≡ only contexts
only-take n [] = refl
only-take n (a ∷ []) = refl
only-take n (a ∷ b ∷ contexts) = refl

module _ (arrange : List String → List String) where
  resume_active-offered :
      (n : ℕ) (contexts : List RepairSessionContext) (st : Store)
      → resume_active arrange contexts st ≡ only (offered arrange (suc (suc n)) contexts st)
  unfolding recent_contexts
  resume_active-offered n [] st = rw (only-take 3 (sorted _), only-take n (sorted _)) refl
  resume_active-offered n (a ∷ []) st = refl
  resume_active-offered n (a ∷ b ∷ contexts) st = refl

  -- With a limit of two or more: the session that is resumed for a user is the only one of the list
  -- that the user is offered, and where the list has none or several, none is resumed.
  pub resume_for_user_offered :
      (user_id : String) (n : ℕ) (st : Store)
      → resume_for_user arrange user_id st
        ≡ only (recent_sessions_for_user arrange user_id (suc (suc n)) st)
  unfolding resume_for_user recent_sessions_for_user
  resume_for_user_offered user_id n st = resume_active-offered n _ st
