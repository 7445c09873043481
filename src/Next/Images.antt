-- ===== src/Next/Images.antt =====
-- utils.js: `wrapImageWithFancyBox`. Each image of the content stands in an element of its own.
use cortono.Prelude.{
  Text, codes, List, [], ◌∷◌, ◌++◌, Bool, true, false, not, ◌&&◌, Option, none, some, if◌then◌else◌,
}

-- The link around an image: the HTML that it was made from, if the script made it; whether it has the
-- classes 'fancybox fancybox.image' and the attribute `rel` 'group'; what was appended to it; its title.
pub record Link : Type 0 where
  pub made_from : Option Text
  pub is_fancybox : Bool
  pub rel_group : Bool
  pub appended : List Text
  pub link_title : Option Text

-- An image: whether it is hidden or in a gallery, its attributes and its link. A `title` or
-- `data-original` that is empty counts as missing, an empty `src` does not.
pub record Image : Type 0 where
  pub is_hidden : Bool
  pub in_gallery : Bool
  pub title : Option Text
  pub data_original : Option Text
  pub src : Option Text
  pub link : Option Link

unfoldable pub is_chosen : Image → Bool
is_chosen i = not i.is_hidden && not i.in_gallery

-- `imageLink`, put into a text: a `src` that is missing is 'null'
unfoldable pub image_link : Image → Text
image_link i = chosen i.data_original i.src
  where
    chosen : Option Text → Option Text → Text
    chosen (some original) src = original
    chosen none (some src) = src
    chosen none none = codes "null"

-- the link around an image, made if there is none
unfoldable pub image_wrap_link : Image → Link
unfolding image_link
image_wrap_link i = link_or_made i.link
  where
    link_or_made : Option Link → Link
    link_or_made (some link) = link
    link_or_made none = record {
      made_from =
          some (codes "<a data-fancybox=\"group\" href=\"" ++ (image_link i ++ codes "\"></a>"));
      is_fancybox = false;
      rel_group = false;
      appended = [];
      link_title = none;
    }

-- what the title adds to a link
unfoldable pub add_title : Option Text → Link → Link
add_title none link = link
add_title (some title) link = record link {
  appended = link.appended ++ (codes "<p class=\"image-caption\">" ++ (title ++ codes "</p>")) ∷ [];
  link_title = some title;
}

unfoldable pub wrap_image : Image → Image
unfolding is_chosen image_wrap_link add_title
wrap_image i =
    if is_chosen i
    then record i {
      link =
          some (
            add_title i.title
              (record (image_wrap_link i) { is_fancybox = true; rel_group = true }));
    }
    else i

unfoldable pub wrap_images : List Image → List Image
unfolding wrap_image
wrap_images [] = []
wrap_images (i ∷ is) = wrap_image i ∷ wrap_images is
