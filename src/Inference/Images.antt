-- ===== src/Inference/Images.antt =====
-- Which image an inference is made on, and what becomes of the built-in one.
use pico2w_tfm.Common.{true, List, [], ◌∷◌, ◌≡◌, refl, ap, arith, Bytes, length, overwrite}
use pico2w_tfm.Psa.{tm_preprocess, engine, psa_read, Trace, Env, Msg}
use pico2w_tfm.Inference.State.{World}
use pico2w_tfm.Inference.Service.{
  Build, image_size, call_engine, infer, infer_custom, run_inference,
}

-- the images that were given to the engine, the latest first
abbrev pub images : Trace → List Bytes
images [] = []
images (engine (tm_preprocess _ _ image) _ ∷ t) = image ∷ images t
images (_ ∷ t) = images t

-- A buffer that is overwritten in its whole length holds the new bytes.
overwrite_all : (xs ys : Bytes) → length ys ≡ length xs → overwrite xs 0 ys ≡ ys
overwrite_all [] [] h = refl
overwrite_all [] (y ∷ ys) h = absurd (omega arith)
overwrite_all (x ∷ xs) [] h = absurd (omega arith)
overwrite_all (x ∷ xs) (y ∷ ys) h = ap (◌∷◌ y) (overwrite_all xs ys (omega arith))

module _ (env : Env) (build : Build) where
  infer-images :
      (msg : Msg) (w : World)
      → (images (infer env build msg w).1.trace ≡ w.mnist_pic ∷ images w.trace)
        × ((infer env build msg w).1.mnist_pic ≡ w.mnist_pic)
        × ((infer env build msg w).1.model_loaded ≡ w.model_loaded)
  unfolding infer call_engine
  infer-images msg w = ground arith

  -- A request with a whole image: it is what the engine is given, and it stays in `mnist_pic`.
  run_inference-custom :
      (msg : Msg) (w : World)
      → w.model_loaded ≡ true
      → length w.mnist_pic ≡ image_size
      → msg.in_size ≡ image_size
      → length (env.read_bytes msg.handle 0 msg.in_size w.trace) ≡ image_size
      → let got = env.read_bytes msg.handle 0 msg.in_size w.trace in
        let w' = run_inference env build msg w in
        (images w'.trace ≡ got ∷ images w.trace) × (w'.mnist_pic ≡ got) × (w'.model_loaded ≡ true)
  unfolding run_inference infer_custom
  run_inference-custom msg w loaded size custom full =
      let got = env.read_bytes msg.handle 0 msg.in_size w.trace in
      let w' = record w {
        mnist_pic = overwrite w.mnist_pic 0 got;
        trace = psa_read msg.handle 0 msg.in_size got ∷ w.trace;
      } in
      ground (arith, infer-images msg w', overwrite_all w.mnist_pic got)

  run_inference-builtin :
      (msg : Msg) (w : World)
      → w.model_loaded ≡ true
      → msg.in_size ≡ 0
      → images (run_inference env build msg w).trace ≡ w.mnist_pic ∷ images w.trace
  unfolding run_inference
  run_inference-builtin msg w loaded empty = ground (arith, infer-images msg w)

  -- After an inference on a client's image of 784 bytes, the next request without an image, from
  -- whatever client, is not served on the test image of the source but on that same client's image.
  pub builtin_image_replaced :
      (msg next : Msg) (w : World)
      → w.model_loaded ≡ true
      → length w.mnist_pic ≡ image_size
      → msg.in_size ≡ image_size
      → length (env.read_bytes msg.handle 0 msg.in_size w.trace) ≡ image_size
      → next.in_size ≡ 0
      → let got = env.read_bytes msg.handle 0 msg.in_size w.trace in
        images (run_inference env build next (run_inference env build msg w)).trace
        ≡ got ∷ got ∷ images w.trace
  builtin_image_replaced msg next w loaded size custom full empty =
      let c = run_inference-custom msg w loaded size custom full in
      ground (arith, run_inference-builtin next (run_inference env build msg w) c.2 empty)
