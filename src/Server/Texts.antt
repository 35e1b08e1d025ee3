-- ===== src/Server/Texts.antt =====
-- The texts that netdj2/engine/Server.cpp answers with.
use netdj.Prelude.{Text, codes, ◌++◌}

unfoldable pub http_200 : Text
http_200 = codes "HTTP/1.0 200 Ok\r\n"

unfoldable pub http_401 : Text
http_401 =
    codes "HTTP/1.0 401 Unauthorized\r\n" ++ codes "WWW-Authenticate: Basic realm=\"NetDJ\"\r\n"

unfoldable pub http_404 : Text
http_404 = codes "HTTP/1.0 404 Not Found\r\n"

unfoldable pub http_500 : Text
http_500 = codes "HTTP/1.0 500 Internal Server Error\r\n"

unfoldable pub http_501 : Text
http_501 = codes "HTTP/1.0 501 Not Implemented\r\n"

unfoldable pub http_html : Text
http_html = codes "Content-Type: text/html; charset=\"utf-8\"\r\n"

unfoldable pub http_xml : Text
http_xml = codes "Content-Type: text/xml; charset=\"utf-8\"\r\n"

unfoldable pub http_datastart : Text
http_datastart = codes "\r\n"

unfoldable pub html_200_start : Text
html_200_start =
    codes "<?xml version=\"1.0\" encoding=\"iso-8859-1\"?>\n"
    ++ codes
        "<!DOCTYPE html PUBLIC \"-//W3C//DTD XHTML 1.1//EN\" \"http://www.w3.org/TR/xhtml11/DTD/xhtml11.dtd\">\n"
    ++ codes "<html xmlns=\"http://www.w3.org/1999/xhtml\" xml:lang=\"en\">\n"
    ++ codes "<head>\n"
    ++ codes "  <title>NetDJ</title>\n"
    ++ codes "</head>\n"
    ++ codes "<body>\n"

unfoldable pub html_200_end : Text
html_200_end = codes "</body>\n" ++ codes "</html>\n"

unfoldable pub html_401 : Text
html_401 =
    codes "<!DOCTYPE HTML PUBLIC \"-//IETF//DTD HTML 2.0//EN\">\n"
    ++ codes "<HTML>\n"
    ++ codes "<HEAD>\n"
    ++ codes "<TITLE>404 Unathorized</TITLE>\n"
    ++ codes "</HEAD>\n"
    ++ codes "<BODY BGCOLOR=\"#FFFFFF\">\n"
    ++ codes "You need proper authentication to access this!\n"
    ++ codes "</BODY>\n"
    ++ codes "</HTML>\n"

unfoldable pub html_404 : Text
html_404 =
    codes "<!DOCTYPE HTML PUBLIC \"-//IETF//DTD HTML 2.0//EN\">\n"
    ++ codes "<HTML>\n"
    ++ codes "<HEAD>\n"
    ++ codes "<TITLE>404 Not found</TITLE>\n"
    ++ codes "</HEAD>\n"
    ++ codes "<BODY BGCOLOR=\"#FFFFFF\">\n"
    ++ codes "The requested command is invalid.\n"
    ++ codes "</BODY>\n"
    ++ codes "</HTML>\n"

unfoldable pub html_500 : Text
html_500 =
    codes "<!DOCTYPE HTML PUBLIC \"-//IETF//DTD HTML 2.0//EN\">\n"
    ++ codes "<HTML>\n"
    ++ codes "<HEAD>\n"
    ++ codes "<TITLE>500 Internal Server Error</TITLE>\n"
    ++ codes "</HEAD>\n"
    ++ codes "<BODY BGCOLOR=\"#FFFFFF\">\n"
    ++ codes "Sorry, something not quite good has happened in the server.\n"
    ++ codes "</BODY>\n"
    ++ codes "</HTML>\n"

unfoldable pub html_501 : Text
html_501 =
    codes "<!DOCTYPE HTML PUBLIC \"-//IETF//DTD HTML 2.0//EN\">\n"
    ++ codes "<HTML>\n"
    ++ codes "<HEAD>\n"
    ++ codes "<TITLE>501 Not Implemented</TITLE>\n"
    ++ codes "</HEAD>\n"
    ++ codes "<BODY BGCOLOR=\"#FFFFFF\">\n"
    ++ codes "Sorry, the server only supports GET.\n"
    ++ codes "</BODY>\n"
    ++ codes "</HTML>\n"
