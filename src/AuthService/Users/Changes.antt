-- ===== src/AuthService/Users/Changes.antt =====
-- Sequences of the changes to existing users (internal/app/auth/service.go).
use regixtry.Base.{Bool, List, [], ◌∷◌, Text, Result, ok, err}
use regixtry.Errors.{Error}
use regixtry.Auth.Principal.{Principal}
use regixtry.AuthStore.Actions.{Env, World, M}
use regixtry.Actions.Triples.{Post, Triple}
use regixtry.AuthStore.Sound.{Sound}
use regixtry.AuthService.Users.{
  UpdateUserInput, set_user_enabled, update_user, delete_user, reset_password,
}
use regixtry.AuthService.Users.LastAdmin.{
  set_user_enabled-Sound, update_user-Sound, delete_user-keeps, reset_password-Sound,
}

-- A request, with the caller that makes it.
pub data Change : Type 0 where
  enabled : Principal → Text → Bool → Change
  updated : Principal → UpdateUserInput → Change
  deleted : Principal → Text → Change
  password : Principal → Text → Text → Change

module _ (env : Env) where
  -- The world after the request, whatever its answer.
  abbrev pub after : Change → World → World
  after (enabled actor id b) w = (set_user_enabled env actor id b w).1
  after (updated actor input) w = (update_user env actor input w).1
  after (deleted actor id) w = (delete_user env actor id w).1
  after (password actor id new) w = (reset_password env actor id new w).1

  abbrev pub after_all : List Change → World → World
  after_all [] w = w
  after_all (c ∷ cs) w = after_all cs (after c w)

  both_ways :
      {A : Type 0} (r : Result Error A) (w : World)
      → Post (λ _. Sound env) (Sound env) (r, w)
      → Sound env w
  both_ways (ok a) w h = h
  both_ways (err e) w h = h

  settled :
      {A : Type 0} {m : M A} (w : World)
      → Triple (Sound env) m (λ _. Sound env) (Sound env)
      → Sound env w
      → Sound env (m w).1
  settled {m} w t h = both_ways (m w).0 (m w).1 (t.at w h)

  after-Sound : (c : Change) (w : World) → Sound env w → Sound env (after c w)
  after-Sound (enabled actor id b) w = settled w (set_user_enabled-Sound env actor id b)
  after-Sound (updated actor input) w = settled w (update_user-Sound env actor input)
  after-Sound (deleted actor id) w = settled w (delete_user-keeps env actor id)
  after-Sound (password actor id new) w = settled w (reset_password-Sound env actor id new)

  -- From a table with an active administrator, distinct ids and none that is still to be drawn, any
  -- sequence of requests to enable, disable, update or delete users or to set their passwords,
  -- whoever makes them and whether each succeeds or fails, leads to such a table again.
  pub after_all-Sound : (cs : List Change) (w : World) → Sound env w → Sound env (after_all cs w)
  after_all-Sound [] w h = h
  after_all-Sound (c ∷ cs) w h = after_all-Sound cs (after c w) (after-Sound c w h)
