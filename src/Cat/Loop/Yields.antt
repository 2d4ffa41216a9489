-- ===== src/Cat/Loop/Yields.antt =====
-- What some rounds of the loop in silog_cat/src/silog_cat.c print and leave, and how this composes.
use si_log.Base.{ℕ, ◌≡◌, ◌∙◌, refl, sym, ap, ap₂, subst, List, [], ◌∷◌, ◌++◌}
use si_log.Entry.{LogEntry}
use si_log.Time.{Tm}
use si_log.Remote.Client.{ClientCtx}
use si_log.Cat.{CatConfig}
use si_log.Cat.Loop.{CatState, RoundCalls, shown, round, rounds}
use si_log.Cat.Loop.Frames.{shown-append}
use si_log.Cat.Loop.Stream.{rounds-append, rounds-left}

-- What some rounds print, and what they leave.
pub record Yields (c : CatConfig) (localtime : ℕ → Tm) (st : CatState) (calls : List RoundCalls)
    (entries : List LogEntry) (P : ClientCtx → Type 0) : Type 0 where
  pub printed : (rounds c localtime st calls).1 ≡ shown c localtime entries
  pub left : P (rounds c localtime st calls).0.client

module _ (c : CatConfig) (localtime : ℕ → Tm) where
  pub Yields-append :
      (st : CatState) (xs ys : List RoundCalls) (es fs : List LogEntry) (P Q : ClientCtx → Type 0)
      → Yields c localtime st xs es P
      → ((st' : CatState) → P st'.client → Yields c localtime st' ys fs Q)
      → Yields c localtime st (xs ++ ys) (es ++ fs) Q
  Yields-append st xs ys es fs P Q p later =
      let st' = (rounds c localtime st xs).0 in
      let q = later st' p.left in
      record {
        printed =
            rounds-append c localtime st xs ys
            ∙ (ap₂ (λ xs ys. xs ++ ys) p.printed q.printed ∙ sym (shown-append c localtime es fs));
        left = subst (λ (s : CatState). Q s.client) (sym (rounds-left c localtime st xs ys)) q.left;
      }

  pub Yields-nothing :
      (st : CatState) (P : ClientCtx → Type 0) → P st.client → Yields c localtime st [] [] P
  unfolding rounds shown
  Yields-nothing st P h = record { printed = refl; left = h }

  -- A round that prints nothing.
  pub Yields-quiet :
      (st : CatState) (os : RoundCalls) (P : ClientCtx → Type 0)
      → (round c localtime st os).1 ≡ []
      → P (round c localtime st os).0.client
      → Yields c localtime st (os ∷ []) [] P
  unfolding rounds shown
  Yields-quiet st os P e h = record { printed = ap (λ t. t ++ []) e; left = h }
